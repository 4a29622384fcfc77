-- ===== src/Environment/Laws.antt =====
-- The port of the webhook (GetPort in internal/webhook/util/util.go).
use persistent_pod_state.Base.{
  Text, codes, some, false, [], ◌∷◌, ◌≡◌, refl, ap, subst, ◌∙◌, inl, inr, Bool-cases, arith,
}
use persistent_pod_state.Base.Int.{ℤ}
use persistent_pod_state.Base.Strings.{is_empty}
use persistent_pod_state.Base.Decimal.{
  IsInt32, IsInRange, parse_int32-IsInRange, parse_int32-print_int, print_int, parse_int32,
}
use persistent_pod_state.Environment.{Env, get_port}

get_port-IsInRange : (env : Env) → IsInRange (get_port env)
unfolding get_port
get_port-IsInRange env = elim (Bool-cases (is_empty (env (codes "WEBHOOK_PORT")))) [
  | inl e ↦ rw e (omega arith)
  | inr e ↦ rw e (parse_int32-IsInRange (env (codes "WEBHOOK_PORT")))
]

-- A port that GetPort returns is a number of 32 bits, whatever the environment.
pub get_port-IsInt32 : (env : Env) (z : ℤ) → get_port env ≡ some z → IsInt32 z
get_port-IsInt32 env z h = subst IsInRange h (get_port-IsInRange env)

nothing_parsed : (s : Text) (z : ℤ) → parse_int32 s ≡ some z → is_empty s ≡ false
unfolding parse_int32
nothing_parsed [] z h = ground arith
nothing_parsed (c ∷ s) z h = refl

-- Where WEBHOOK_PORT is the decimal form of a number of 32 bits, also of a negative one, GetPort
-- returns that number.
pub get_port-print_int :
    (env : Env) (z : ℤ)
    → IsInt32 z
    → env (codes "WEBHOOK_PORT") ≡ print_int z
    → get_port env ≡ some z
unfolding get_port
get_port-print_int env z h e =
    let parsed = ap parse_int32 e ∙ parse_int32-print_int z h in
    let set = nothing_parsed (env (codes "WEBHOOK_PORT")) z parsed in rw set parsed
