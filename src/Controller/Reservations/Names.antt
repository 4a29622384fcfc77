-- ===== src/Controller/Reservations/Names.antt =====
-- The names of reservations, which have no namespace.
use persistent_pod_state.Base.{Text, ◌∷◌, ◌++◌, ◌≡◌, ap}
use persistent_pod_state.Base.Strings.{append_regroup}
use persistent_pod_state.Controller.Reservations.{reservation_name}

-- Objects of two namespaces can share a reservation: the name for b-c in namespace a is the name
-- for c in namespace a-b, for any a, b and c.
pub reservation_name-ambiguous :
    (prefix a b c : Text)
    → reservation_name prefix a (b ++ b'-' ∷ c) ≡ reservation_name prefix (a ++ b'-' ∷ b) c
unfolding reservation_name
reservation_name-ambiguous prefix a b c = ap (λ r. prefix ++ b'-' ∷ r) (append_regroup a b c b'-')
