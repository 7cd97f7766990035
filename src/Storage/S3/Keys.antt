-- ===== src/Storage/S3/Keys.antt =====
-- The object keys of internal/storage/s3.go.
use mathlib.Core.List.{append_cancel_left}
use cache_proxyfy.Prelude.{
  ℕ, ◌≡◌, ◌∙◌, ap, refl, sym, Bytes, arith, ◌==◌, ◌∷◌, [], drop, inl, inr, Bool-cases, trim_right,
}
use cache_proxyfy.Storage.S3.{S3, suffix, key}

suffix_long : (a b : ℕ) (k : Bytes) → suffix (a ∷ b ∷ k) ≡ a ∷ b ∷ b'/' ∷ a ∷ b ∷ k
unfolding suffix
suffix_long a b k = ground arith

suffix_injective : (k j : Bytes) → suffix k ≡ suffix j → k ≡ j
suffix_injective [] [] h = refl
suffix_injective [] (x ∷ []) h = unfold suffix in h
suffix_injective (x ∷ []) [] h = unfold suffix in h
suffix_injective (x ∷ []) (y ∷ []) h = unfold suffix in h
suffix_injective [] (x ∷ y ∷ j) h = unfold suffix in cc (h, suffix_long x y j)
suffix_injective (x ∷ []) (y ∷ z ∷ j) h = unfold suffix in cc (h, suffix_long y z j)
suffix_injective (x ∷ y ∷ k) [] h = unfold suffix in cc (h, suffix_long x y k)
suffix_injective (x ∷ y ∷ k) (z ∷ []) h = unfold suffix in cc (h, suffix_long x y k)
suffix_injective (x ∷ y ∷ k) (z ∷ w ∷ j) h =
    ap (drop 3) (sym (suffix_long x y k) ∙ h ∙ suffix_long z w j)

same_tail : {x : ℕ} {a b : Bytes} → x ∷ a ≡ x ∷ b → a ≡ b
same_tail h = cc h

-- Different artifact names have different object keys: the two-byte directory and the prefix
-- lose nothing, whatever bytes a name has.
pub object_key_injective : (s : S3) (k j : Bytes) → key s k ≡ key s j → k ≡ j
unfolding key
object_key_injective s k j h = elim (Bool-cases (s.key_prefix == [])) [
  | inl e ↦ suffix_injective k j (ground arith)
  | inr e ↦ suffix_injective k j (
      same_tail (
        append_cancel_left (trim_right b'/' s.key_prefix) (b'/' ∷ suffix k) (b'/' ∷ suffix j)
          (ground arith)))
]
