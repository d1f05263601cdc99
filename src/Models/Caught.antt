-- ===== src/Models/Caught.antt =====
-- Functions that raise nothing but `ClaimCIError`.
use claim_ci.Prelude.{◌≡◌, refl, Bool, true, false, is_some, Option, none, some}
use claim_ci.Models.{ClaimError, Result, ok, err, is_uncaught, is_caught, ◌>>=◌, or_raise, require}

module _ {ℓ} {A : Type ℓ} where
  pub bind-caught {κ} :
      {B : Type κ} (first : Result A) (next : A → Result B)
      → is_caught first ≡ true
      → ((found : A) → first ≡ ok found → is_caught (next found) ≡ true)
      → is_caught (first >>= next) ≡ true
  bind-caught (ok found) next h k = k found refl
  bind-caught (err raised) next h k = h

  pub or_raise-caught :
      (o : Option A) (e : ClaimError) → is_uncaught e ≡ false → is_caught (or_raise o e) ≡ true
  or_raise-caught (some a) e h = refl
  or_raise-caught none e h = rw h refl

  pub found-caught :
      (o : Option A) (e : ClaimError) → is_some o ≡ true → is_caught (or_raise o e) ≡ true
  found-caught (some a) e h = refl
  found-caught none e h = cc

pub require-caught :
    (b : Bool) (e : ClaimError) → is_uncaught e ≡ false → is_caught (require b e) ≡ true
require-caught true e h = refl
require-caught false e h = rw h refl
