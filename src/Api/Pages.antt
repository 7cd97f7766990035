-- ===== src/Api/Pages.antt =====
-- What the paginated endpoints answer with.
use cache_proxyfy.Prelude.{ℕ, ◌≤◌, ◌<◌, ◌≡◌, refl, Option, none, some, List, arith, select}
use cache_proxyfy.Prelude.Integers.{sign_bit, positive_int, positive_int-range}
use cache_proxyfy.Db.Schema.{Package, Database}
use cache_proxyfy.Db.Listing.{most_recent_first, is_named}
use cache_proxyfy.Api.{Request, parse_page, page_or_1, size_or_25}

page_or_1-bounds :
    (o : Option ℕ)
    → ((n : ℕ) → o ≡ some n → (0 < n) × (n < sign_bit))
    → (1 ≤ page_or_1 o) × (page_or_1 o < sign_bit)
page_or_1-bounds none h = (omega arith, omega arith)
page_or_1-bounds (some n) h = let (a, b) = h n refl in (omega arith, b)

size_or_25-bounds :
    (o : Option ℕ)
    → ((n : ℕ) → o ≡ some n → (0 < n) × (n < sign_bit))
    → (1 ≤ size_or_25 o) × (size_or_25 o ≤ 100)
size_or_25-bounds none h = (omega arith, omega arith)
size_or_25-bounds (some n) h = let (a, b) = h n refl in ground arith

-- The page is at least 1 and within int, and the page size lies between 1 and 100.
pub parse_page-bounds :
    (r : Request)
    → (1 ≤ (parse_page r).0)
      × ((parse_page r).0 < sign_bit)
      × (1 ≤ (parse_page r).1)
      × ((parse_page r).1 ≤ 100)
unfolding parse_page
parse_page-bounds r =
    let (a, b) = page_or_1-bounds (positive_int r.page) (positive_int-range r.page) in
    let (c, d) = size_or_25-bounds (positive_int r.page_size) (positive_int-range r.page_size) in
    (a, b, c, d)

-- The rows of a package, the most recent first.
abbrev pub rows_of : Request → Database → List Package
rows_of r d = most_recent_first (select (is_named r.ecosystem r.name) d.packages)
