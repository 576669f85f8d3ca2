-- ===== src/Logind/User/Samples.antt =====
-- A user that logs in and out, and the theorems applied to it.

use quantra_system.Base.{◌≡◌, refl, true, none, some, List, [], ◌∷◌}
use quantra_system.Base.Assoc.{nat_eq, get, insert}
use quantra_system.Logind.Types.{new_user}
use quantra_system.Logind.User.{UserManager, System, first_record, login}
use quantra_system.Logind.User.Laws.{Inv}
use quantra_system.Logind.User.Logins.{Call, logs_in, logs_out, lingers, run, step, run-Inv_users}

abbrev sys : System
sys = record {
  now = 70;
  prepares = λ uid. true;
  keeps_file = λ uid. true;
  destroys = λ uid. true;
  ends_slice = λ uid. true;
  username_of = λ uid. some "ada";
}

-- Two users; the first lingers and has logged out.
abbrev calls : List Call
calls =
    logs_in sys 1000 "ada" 1
    ∷ lingers sys 1000 true
    ∷ logs_out 1000 1
    ∷ logs_in sys 1001 "bob" 2
    ∷ []

abbrev users : UserManager
users = run (logs_in sys 1000 "ada" 1 ∷ []) []

users_run : get 1000 users ≡ some (first_record 70 1000 "ada" 1)
unfolding run step login get insert first_record new_user
users_run = refl

run-Inv_users_example : Inv (run calls [])
run-Inv_users_example = run-Inv_users calls

abbrev nobody : UserManager
nobody = []

unknown : get 1002 nobody ≡ none
unfolding get
unknown = refl
