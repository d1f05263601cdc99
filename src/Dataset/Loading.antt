-- ===== src/Dataset/Loading.antt =====
-- `load_dataset`: what the file behind an accepted dataset holds.
use claim_ci.Prelude.{
  ◌<◌, ◌≡◌, Bool, not, is_empty, List, [], ◌∷◌, keep, String, length, some, arith, Bool-cases, inl,
  inr, subst,
}
use claim_ci.Models.{
  ok, unreadable, no_records, uncaught, ◌>>=◌, >>=-eq-ok, ok-injective, or_raise-eq-ok,
  DatasetHashes, require, or_raise,
}
use claim_ci.World.{World}
use claim_ci.Dataset.{hash_line, hash_lines, load_dataset, split_lines, is_blank}

-- Each line has the hash at its place.
abbrev pub Hashed : World → List String → List String → Type 0
Hashed w [] [] = Unit
Hashed w [] (h ∷ hashes) = ⊥
Hashed w (line ∷ lines) [] = ⊥
Hashed w (line ∷ lines) (h ∷ hashes) = (hash_line w line ≡ ok h) × Hashed w lines hashes

abbrev pub not_blank : String → Bool
not_blank line = not (is_blank line)

some_of_required :
    (hashes : List String) → require (not (is_empty hashes)) no_records ≡ ok tt → 0 < length hashes
some_of_required [] h = cc
some_of_required (x ∷ hashes) h = omega arith

hash_lines-Hashed :
    (w : World) (lines hashes : List String)
    → hash_lines w lines ≡ ok hashes
    → Hashed w (keep not_blank lines) hashes
unfolding hash_lines
hash_lines-Hashed w [] [] h = tt
hash_lines-Hashed w [] (x ∷ hashes) h = cc
hash_lines-Hashed w (line ∷ lines) hashes h = elim (Bool-cases (is_blank line)) [
  | inl e ↦ rw e (hash_lines-Hashed w lines hashes (rw e at h))
  | inr e ↦
      let (digest, first, more) =
        >>=-eq-ok (hash_line w line)
          (λ digest. hash_lines w lines >>= λ digests. ok (digest ∷ digests)) (rw e at h) in
      let (digests, rest, joined) =
        >>=-eq-ok (hash_lines w lines) (λ digests. ok (digest ∷ digests)) more in
      rw e (
        subst (Hashed w (line ∷ keep not_blank lines)) (ok-injective joined)
          (first, hash_lines-Hashed w lines digests rest))
]

-- What an accepted dataset file holds.
pub record Loaded (w : World) (path : String) (d : DatasetHashes) : Type 0 where
  pub text : String
  pub found : w.read_text path ≡ some text
  pub place : w.resolve path ≡ some d.path
  pub hashed : Hashed w (keep not_blank (split_lines text)) d.hashes
  pub filled : 0 < length d.hashes

-- A dataset that `load_dataset` returns has been read from the file: it has the hash of every line
-- that is not blank, in the lines' order, one for each, and at least one. So a single line that is
-- no valid record refuses the whole file.
pub load_dataset-Loaded :
    (w : World) (path : String) (d : DatasetHashes) → load_dataset w path ≡ ok d → Loaded w path d
unfolding load_dataset
load_dataset-Loaded w path d h =
    let (text, found, h1) = >>=-eq-ok (or_raise (w.read_text path) unreadable) _ h in
    let (hashes, hashed, h2) = >>=-eq-ok (hash_lines w (split_lines text)) _ h1 in
    let (_, filled, h3) = >>=-eq-ok (require (not (is_empty hashes)) no_records) _ h2 in
    let (resolved, place, h4) = >>=-eq-ok (or_raise (w.resolve path) uncaught) _ h3 in
    subst (Loaded w path) (ok-injective h4) (record {
      text = text;
      found = or_raise-eq-ok _ unreadable found;
      place = or_raise-eq-ok _ uncaught place;
      hashed = hash_lines-Hashed w (split_lines text) hashes hashed;
      filled = some_of_required hashes filled;
    })
