-- ===== src/Webhook/Server.antt =====
-- The maps of handlers and their gates: internal/webhook/server.go. A gate is a function that
-- is asked when the manager is set up; here it is what it answers.
pub mod Laws
pub mod Setup
use persistent_pod_state.Base.{
  Text, ◌==◌, text_eq, nat_eq, if◌then◌else◌, Bool, true, false, not, Option, none, some, List, [],
  ◌∷◌,
}
use persistent_pod_state.Base.GoMap.{Dict, lookup, insert, erase}

-- `HandlerBuilderMap` and `handlerGates`
pub record Handlers (B : Type 0) : Type 0 where
  pub builders : Dict B
  pub gates : Dict Bool

-- A path gets a leading slash where it has none.
unfoldable pub rooted : Text → Text
rooted [] = []
rooted (c ∷ path) = if c == b'/' then c ∷ path else b'/' ∷ c ∷ path

-- Whether a gate stands in the way of a path.
unfoldable pub is_disabled : Dict Bool → Text → Bool
is_disabled gates path = elim (lookup path gates) [ none ↦ false | some gate ↦ not gate ]

module _ {B : Type 0} where
  -- One round of the loop, for a path that is not empty.
  unfoldable pub add_handler : Text → B → Option Bool → Handlers B → Handlers B
  add_handler path builder none h = record h { builders = insert path builder h.builders }
  add_handler path builder (some gate) h = record {
    builders = insert path builder h.builders;
    gates = insert path gate h.gates;
  }

  -- `addHandlersWithGate`
  unfoldable pub add_handlers_with_gate : Dict B → Option Bool → Handlers B → Handlers B
  unfolding add_handler rooted
  add_handlers_with_gate [] gate h = h
  add_handlers_with_gate (([], builder) ∷ m) gate h = add_handlers_with_gate m gate h
  add_handlers_with_gate ((c ∷ path, builder) ∷ m) gate h =
      add_handlers_with_gate m gate (add_handler (rooted (c ∷ path)) builder gate h)

  -- The first loop of `filterActiveHandlers`
  unfoldable pub disable_paths : Dict B → Dict Bool → List Text
  unfolding is_disabled
  disable_paths [] gates = []
  disable_paths ((path, builder) ∷ m) gates =
      let rest = disable_paths m gates in if is_disabled gates path then path ∷ rest else rest

  -- The second one
  unfoldable pub delete_all : List Text → Dict B → Dict B
  delete_all [] m = m
  delete_all (path ∷ paths) m = delete_all paths (erase path m)

  unfoldable pub filter_active_handlers : Handlers B → Handlers B
  unfolding disable_paths delete_all
  filter_active_handlers h = record h {
    builders = delete_all (disable_paths h.builders h.gates) h.builders;
  }
