-- ===== src/Program/Ensures.antt =====
-- What holds of the program whenever a part goes on, and how that is shown for parts in a row.
use mathlib.Core.Path.{◌≡◌, refl}
use distance_vector_routing.Common.{List, Option, none, some, ◌>>=◌}
use distance_vector_routing.Program.{Program, Action, Turn, goes_on, exits, ◌then_do◌, after}

abbrev pub Ensures : (Program → Type 0) → Option Turn → Type 0
Ensures P none = Unit
Ensures P (some (goes_on p sent)) = P p
Ensures P (some (exits status sent)) = Unit

pub Ensures-bind :
    {A : Type 0} (P : Program → Type 0) (m : Option A) (f : A → Option Turn)
    → ((a : A) → m ≡ some a → Ensures P (f a))
    → Ensures P (m >>= f)
Ensures-bind P none f h = tt
Ensures-bind P (some a) f h = h a refl

pub Ensures-after :
    (Q : Program → Type 0) (sent : List Action) (m : Option Turn)
    → Ensures Q m
    → Ensures Q (m >>= λ t. some (after sent t))
Ensures-after Q sent none h = tt
Ensures-after Q sent (some (goes_on p later)) h = h
Ensures-after Q sent (some (exits status later)) h = tt

pub Ensures-then_do :
    (P Q : Program → Type 0) (m : Option Turn) (next : Program → Option Turn)
    → Ensures P m
    → ((p : Program) → P p → Ensures Q (next p))
    → Ensures Q (m then_do next)
Ensures-then_do P Q none next h k = tt
Ensures-then_do P Q (some (goes_on p sent)) next h k = Ensures-after Q sent (next p) (k p h)
Ensures-then_do P Q (some (exits status sent)) next h k = tt
