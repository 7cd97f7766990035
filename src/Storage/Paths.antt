-- ===== src/Storage/Paths.antt =====
-- internal/storage/local.go, the paths of artifacts.
use mathlib.Core.List.{reverse, reverse_aux, reverse_aux-eq, reverse-reverse, append_cancel_right}
use cache_proxyfy.Prelude.{
  ◌≡◌, ◌≢◌, refl, sym, ap, ◌∙◌, Bytes, codes, Bool, true, false, not, ◌&&◌, ◌||◌, List, [], ◌∷◌,
  ◌++◌, arith, ltb, leb, length, take, false≢true, if◌then◌else◌, false≢true, ◌==◌, split, join,
  join-split, has_suffix, has_suffix-append, free_of, split-free_of, append_assoc,
}
use cache_proxyfy.Storage.Disk.{FilePath}

-- `Local`: the base directory as given, split at its slashes.
pub record Local : Type 0 where
  pub rooted : Bool
  pub base : List Bytes

-- filepath.Clean, one component at a time.
unfoldable pub parent : Bool → FilePath → FilePath
parent true [] = []
parent false [] = codes ".." ∷ []
parent rooted (c ∷ p) = if not rooted && (c == codes "..") then codes ".." ∷ c ∷ p else p

unfoldable pub enter : Bool → FilePath → Bytes → FilePath
enter rooted p c =
    if (c == []) || (c == codes ".") then p else if c == codes ".." then parent rooted p else c ∷ p

unfoldable pub enter_all : Bool → FilePath → List Bytes → FilePath
enter_all rooted p [] = p
enter_all rooted p (c ∷ cs) = enter_all rooted (enter rooted p c) cs

abbrev pub base_path : Local → FilePath
base_path l = enter_all l.rooted [] l.base

-- filepath.Join(l.BaseDir, checksum), with the first two bytes as a directory if there are two.
unfoldable pub path : Local → Bytes → FilePath
path l checksum =
    if ltb (length checksum) 2
    then enter_all l.rooted (base_path l) (split b'/' checksum)
    else enter_all l.rooted (enter_all l.rooted (base_path l) (split b'/' (take 2 checksum)))
        (split b'/' checksum)

-- path + ".tmp"; the empty path prints as "/" or ".".
unfoldable pub tmp_path : Bool → FilePath → FilePath
tmp_path true [] = codes ".tmp" ∷ []
tmp_path false [] = codes "..tmp" ∷ []
tmp_path rooted (c ∷ p) = (c ++ codes ".tmp") ∷ p

-- A component that filepath.Clean keeps, and that no temporary file has as its name.
abbrev pub is_plain : Bytes → Bool
is_plain c =
    not (c == [])
    && not (c == codes ".")
    && not (c == codes "..")
    && not (has_suffix c (codes ".tmp"))

abbrev pub all_plain : List Bytes → Bool
all_plain [] = true
all_plain (c ∷ cs) = is_plain c && all_plain cs

-- The artifact names whose paths are what they look like: at least two bytes, no slash among the
-- first two, and plain components.
unfoldable pub is_valid_name : Bytes → Bool
is_valid_name k =
    leb 2 (length k) && free_of b'/' (take 2 k) && is_plain (take 2 k) && all_plain (split b'/' k)

enter_all-plain :
    (rooted : Bool) (p : FilePath) (cs : List Bytes)
    → all_plain cs ≡ true
    → enter_all rooted p cs ≡ reverse_aux cs p
unfolding enter_all enter
enter_all-plain rooted p [] h = refl
enter_all-plain rooted p (c ∷ cs) h = ground (arith, enter_all-plain rooted (c ∷ p) cs)

-- The path of a valid name: base, first two bytes, then the name's components.
pub path-valid :
    (l : Local) (k : Bytes)
    → is_valid_name k ≡ true
    → path l k ≡ reverse_aux (split b'/' k) (take 2 k ∷ base_path l)
unfolding path is_valid_name
path-valid l k h = ground (
  arith,
  split-free_of b'/' (take 2 k),
  enter_all-plain l.rooted (base_path l) (take 2 k ∷ []),
  enter_all-plain l.rooted (take 2 k ∷ base_path l) (split b'/' k),
)

-- Two valid names have the same path only if they are the same name.
pub path_injective :
    (l : Local) (k j : Bytes)
    → is_valid_name k ≡ true
    → is_valid_name j ≡ true
    → path l k ≡ path l j
    → k ≡ j
path_injective l k j vk vj h = sym (join-split b'/' k) ∙ ap (join b'/') names ∙ join-split b'/' j
  where
    spelled :
        (i : Bytes)
        → is_valid_name i ≡ true
        → path l i ≡ reverse (take 2 i ∷ split b'/' i) ++ base_path l
    spelled i v =
        path-valid l i v
        ∙ reverse_aux-eq (split b'/' i) (take 2 i ∷ base_path l)
        ∙ sym (append_assoc (reverse (split b'/' i)) (take 2 i ∷ []) (base_path l))
        ∙ ap (λ (p : FilePath). p ++ base_path l)
            (sym (reverse_aux-eq (split b'/' i) (take 2 i ∷ [])))

    reversed : reverse (take 2 k ∷ split b'/' k) ≡ reverse (take 2 j ∷ split b'/' j)
    reversed =
        append_cancel_right (reverse (take 2 k ∷ split b'/' k)) (reverse (take 2 j ∷ split b'/' j))
          (base_path l) (sym (spelled k vk) ∙ h ∙ spelled j vj)

    whole : ◌≡◌ {A = List Bytes} (take 2 k ∷ split b'/' k) (take 2 j ∷ split b'/' j)
    whole =
        sym (reverse-reverse (take 2 k ∷ split b'/' k))
        ∙ ap reverse reversed
        ∙ reverse-reverse (take 2 j ∷ split b'/' j)

    names : split b'/' k ≡ split b'/' j
    names = cc whole

-- The file's own name is plain.
abbrev first_plain : FilePath → Bool
first_plain [] = false
first_plain (c ∷ p) = is_plain c

first_plain-reverse_aux :
    (cs : List Bytes) (p : FilePath)
    → all_plain cs ≡ true
    → first_plain p ≡ true
    → first_plain (reverse_aux cs p) ≡ true
first_plain-reverse_aux [] p h e = e
first_plain-reverse_aux (c ∷ cs) p h e =
    first_plain-reverse_aux cs (c ∷ p) (ground arith) (ground arith)

first_plain-tmp_path : (rooted : Bool) (p : FilePath) → first_plain (tmp_path rooted p) ≡ false
unfolding tmp_path
first_plain-tmp_path true [] = unfold ◌==◌ has_suffix in refl
first_plain-tmp_path false [] = unfold ◌==◌ has_suffix in refl
first_plain-tmp_path true (c ∷ p) = ground (arith, has_suffix-append c (codes ".tmp"))
first_plain-tmp_path false (c ∷ p) = ground (arith, has_suffix-append c (codes ".tmp"))

-- No artifact lies where another's temporary file is written.
pub path-ne-tmp_path :
    (l : Local) (k : Bytes) (p : FilePath) → is_valid_name k ≡ true → path l k ≢ tmp_path l.rooted p
path-ne-tmp_path l k p v e = false≢true (
    sym (first_plain-tmp_path l.rooted p)
    ∙ ap first_plain (sym e ∙ path-valid l k v)
    ∙ first_plain-reverse_aux (split b'/' k) (take 2 k ∷ base_path l) (ground (arith, unfolded k v))
        (ground (arith, unfolded k v)))
  where
    unfolded :
        (k : Bytes)
        → is_valid_name k ≡ true
        → (all_plain (split b'/' k) ≡ true) × (is_plain (take 2 k) ≡ true)
    unfolded k v = unfold is_valid_name in ground arith
