-- ===== src/Cache/Keys.antt =====
-- When two packages share a cache key.
use mathlib.Core.List.{append_cancel_left, append_cancel_right}
use cache_proxyfy.Prelude.{
  ◌≡◌, sym, ap, ◌∙◌, Bytes, codes, true, Option, some, ◌∷◌, ◌++◌, arith, append_assoc, free_of, cut,
  cut-append, after_last, after_last-append,
}
use cache_proxyfy.Db.Schema.{PackageKey}
use cache_proxyfy.Cache.Client.{key}

-- The key without its fixed part.
abbrev joined : PackageKey → Bytes
joined k = k.ecosystem ++ b':' ∷ (k.name ++ b':' ∷ k.version)

joined_injective :
    (k j : PackageKey)
    → free_of b':' k.ecosystem ≡ true
    → free_of b':' j.ecosystem ≡ true
    → free_of b':' k.version ≡ true
    → free_of b':' j.version ≡ true
    → joined k ≡ joined j
    → k ≡ j
joined_injective k j ke je kv jv h = ground (arith, ecosystem, version, name)
  where
    cuts :
        ◌≡◌ {A = Option (Bytes × Bytes)}
          (some (k.ecosystem, k.name ++ b':' ∷ k.version))
          (some (j.ecosystem, j.name ++ b':' ∷ j.version))
    cuts =
        sym (cut-append b':' k.ecosystem _ ke) ∙ ap (cut b':') h ∙ cut-append b':' j.ecosystem _ je

    ecosystem : k.ecosystem ≡ j.ecosystem
    ecosystem = cc cuts

    rest : k.name ++ b':' ∷ k.version ≡ j.name ++ b':' ∷ j.version
    rest = cc cuts

    version : k.version ≡ j.version
    version =
        sym (after_last-append b':' k.name k.version kv)
        ∙ ap (after_last b':') rest
        ∙ after_last-append b':' j.name j.version jv

    name : k.name ≡ j.name
    name =
        append_cancel_right k.name j.name (b':' ∷ j.version)
          (ap (λ (v : Bytes). k.name ++ b':' ∷ v) (sym version) ∙ rest)

-- Two packages whose ecosystems and versions hold no colon share a Redis key only if they are the
-- same package; their names may hold colons, as Maven's do.
pub key_injective :
    (k j : PackageKey)
    → free_of b':' k.ecosystem ≡ true
    → free_of b':' j.ecosystem ≡ true
    → free_of b':' k.version ≡ true
    → free_of b':' j.version ≡ true
    → key k ≡ key j
    → k ≡ j
unfolding key
key_injective k j ke je kv jv h =
    joined_injective k j ke je kv jv (append_cancel_left (codes "cpf:") (joined k) (joined j) h)

-- A colon in a version is not told from one in a name: the two packages share their Redis key.
pub key-shared :
    (ecosystem name part version : Bytes)
    → key (record { ecosystem = ecosystem; name = name ++ b':' ∷ part; version = version })
      ≡ key (record { ecosystem = ecosystem; name = name; version = part ++ b':' ∷ version })
unfolding key
key-shared ecosystem name part version = rw (append_assoc name (b':' ∷ part) (b':' ∷ version))
