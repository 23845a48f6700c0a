-- ===== src/Base/Do.antt =====
-- `do` blocks over `Result`.
use eventcommerce_os.Base.Results.{Result, bind}

infixl 5 ◌>>=◌ ◌>>◌
abbrev pub ◌>>=◌ {ℓ κ} : {A : Type ℓ} {B : Type κ} → Result A → (A → Result B) → Result B
m >>= f = bind m f

abbrev pub ◌>>◌ {ℓ κ} : {A : Type ℓ} {B : Type κ} → Result A → Result B → Result B
m >> k = bind m (λ _. k)
