-- ===== src/Examples/Ports.antt =====
-- Ports, as the environment gives them.
use persistent_pod_state.Base.{codes, some, ◌≡◌, refl, nat_eq, arith}
use persistent_pod_state.Base.Int.{pos}
use persistent_pod_state.Base.Decimal.{
  IsInt32, parse_int32, parse_unsigned, parse_digits, positive32, print_int, print_nat, digits,
}
use persistent_pod_state.Environment.{Env, get_port}
use persistent_pod_state.Environment.Laws.{get_port-IsInt32, get_port-print_int}

abbrev env : Env
env variable = codes "9443"

read : get_port env ≡ some (pos 9443)
unfolding get_port parse_int32 parse_unsigned parse_digits positive32 nat_eq
read = refl

printed : codes "9443" ≡ print_int (pos 9443)
unfolding print_int print_nat digits
printed = refl

get_port-IsInt32_example : IsInt32 (pos 9443)
get_port-IsInt32_example = get_port-IsInt32 env (pos 9443) read

get_port-print_int_example : get_port env ≡ some (pos 9443)
get_port-print_int_example = get_port-print_int env (pos 9443) (omega arith) printed
