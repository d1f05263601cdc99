-- ===== src/Counter.antt =====
-- `collections.Counter` over digests, as the dataset checks use it: a dictionary from a digest to
-- how often it occurs, in insertion order, with one entry for each digest.
pub mod Counts
pub mod Totals
pub mod Equal
pub mod Symmetric
mod Sorting
pub mod Ordered
pub mod Ascending
unfoldable pub use Sorting.{sorted}
pub use Sorting.{sorted-Perm}
use claim_ci.Prelude.{
  ℕ, zero, suc, ◌+◌, ◌-◌, ◌≡◌, refl, Bool, true, false, ◌&&◌, ltb, ◌==◌, min, List, [], ◌∷◌, String,
  str_eq, all, any, length, if◌then◌else◌,
}

abbrev pub Counter : Type 0
Counter = List (String × ℕ)

-- `counts[key]`, 0 where the key is missing
unfoldable pub count_of : String → Counter → ℕ
count_of key [] = 0
count_of key ((k, n) ∷ c) = if str_eq k key then n else count_of key c

-- `key in counts`
unfoldable pub has_key : String → Counter → Bool
has_key key [] = false
has_key key ((k, n) ∷ c) = if str_eq k key then true else has_key key c

-- `counts[key] += n`
unfoldable pub increase : String → ℕ → Counter → Counter
increase key n [] = (key, n) ∷ []
increase key n ((k, m) ∷ c) = if str_eq k key then (k, m + n) ∷ c else (k, m) ∷ increase key n c

count_into : Counter → List String → Counter
unfolding increase
count_into c [] = c
count_into c (x ∷ xs) = count_into (increase x 1 c) xs

-- `Counter(items)`
unfoldable pub counter : List String → Counter
unfolding count_into
counter items = count_into [] items

-- `sum(counts.values())`
unfoldable pub total : Counter → ℕ
total [] = 0
total ((k, n) ∷ c) = n + total c

abbrev pub positive_entry : String → ℕ → Counter → Counter
positive_entry k n rest = if ltb 0 n then (k, n) ∷ rest else rest

-- `a & b`
unfoldable pub intersection : Counter → Counter → Counter
unfolding count_of
intersection [] d = []
intersection ((k, n) ∷ c) d = positive_entry k (min n (count_of k d)) (intersection c d)

-- `a - b`, for counters without negative counts
unfoldable pub difference : Counter → Counter → Counter
unfolding count_of
difference [] d = []
difference ((k, n) ∷ c) d = positive_entry k (n - count_of k d) (difference c d)

-- Every entry of the first counter is an entry of the second.
unfoldable pub entries_in : Counter → Counter → Bool
unfolding has_key count_of
entries_in [] d = true
entries_in ((k, n) ∷ c) d = (has_key k d && n == count_of k d) && entries_in c d

-- `a == b`
unfoldable pub eq_counter : Counter → Counter → Bool
unfolding entries_in
eq_counter c d = length c == length d && entries_in c d

-- The keys of a counter in order.
unfoldable pub keys : Counter → List String
keys [] = []
keys ((k, n) ∷ c) = k ∷ keys c

-- How often a digest occurs in a list: what a counter is for.
unfoldable pub count : String → List String → ℕ
count key [] = 0
count key (x ∷ xs) = (if str_eq x key then 1 else 0) + count key xs

-- One entry for each key.
abbrev pub IsDistinct : Counter → Type 0
IsDistinct [] = Unit
IsDistinct ((k, n) ∷ c) = (has_key k c ≡ false) × IsDistinct c

sample : intersection (counter ("a" ∷ "b" ∷ "a" ∷ [])) (counter ("a" ∷ "c" ∷ [])) ≡ ("a", 1) ∷ []
unfolding intersection counter
sample = refl
