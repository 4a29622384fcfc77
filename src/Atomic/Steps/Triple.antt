-- ===== src/Atomic/Steps/Triple.antt =====
-- Reasoning about calls of the file system, step by step.
use persistent_pod_state.Base.{Text, Option, none, some, Reply, success, failure}
use persistent_pod_state.Base.Lists.{All}
use persistent_pod_state.Atomic.Calls.{
  Disk, Fault, World, Sys, first_fault, return, fail, continue, ◌>>=◌, cleaned_up, on_failure,
  attempted, attempt, read_by, read, made, call_by, call,
}

-- What holds after a run: of the result or the failure.
abbrev pub Ends :
    {A : Type 0} → (A → Disk → Type 0) → (Disk → Type 0) → Reply Text A → Disk → Type 0
Ends post bad (success a) d = post a d
Ends post bad (failure e) d = bad d

-- The same, and of every disk on the way.
pub record Left (ok : Disk → Type 0) {A : Type 0} (post : A → Disk → Type 0) (bad : Disk → Type 0)
    (r : Reply Text A × World) : Type 0 where
  pub ends : Ends post bad r.0 r.1.disk
  pub on_way : All ok r.1.past

-- What a call may be asked to show: of its effect, or of its own error.
unfoldable pub Leads : (Disk → Type 0) → (Disk → Type 0) → Disk → Reply Text Disk → Type 0
Leads post bad d (success d') = post d'
Leads post bad d (failure e) = bad d

-- From a disk with the first property, the calls lead to the second, or fail with the third.
pub record Triple (ok : Disk → Type 0) {A : Type 0} (pre : Disk → Type 0) (m : Sys A)
    (post : A → Disk → Type 0) (bad : Disk → Type 0) : Type 0 where
  pub run : (w : World) → pre w.disk → All ok w.past → Left ok post bad (m w)

-- The failure after what was done about it.
abbrev handled : {A : Type 0} → Text → Reply Text (Unit {0}) × World → Reply Text A × World
handled e r = (failure e, r.1)

module _ {ok : Disk → Type 0} where
  Left-continue :
      {A B : Type 0} {mid : A → Disk → Type 0} {post : B → Disk → Type 0} {bad : Disk → Type 0}
      (f : A → Sys B)
      → ((a : A) → Triple ok (mid a) (f a) post bad)
      → (r : Reply Text A × World) → Left ok mid bad r
      → Left ok post bad (continue f r)
  Left-continue f hf (success a, w) h = (hf a).run w h.ends h.on_way
  Left-continue f hf (failure e, w) h = record { ends = h.ends; on_way = h.on_way }

  pub Triple-bind :
      {A B : Type 0} {pre : Disk → Type 0} {mid : A → Disk → Type 0} {post : B → Disk → Type 0}
      {bad : Disk → Type 0} (m : Sys A) (f : A → Sys B)
      → Triple ok pre m mid bad
      → ((a : A) → Triple ok (mid a) (f a) post bad)
      → Triple ok pre (m >>= f) post bad
  Triple-bind m f hm hf = record { run = λ w p past. Left-continue f hf (m w) (hm.run w p past) }

  pub Triple-return :
      {A : Type 0} {pre : Disk → Type 0} {post : A → Disk → Type 0} {bad : Disk → Type 0} (a : A)
      → ((d : Disk) → pre d → post a d)
      → Triple ok pre (return a) post bad
  Triple-return a h = record { run = λ w p past. record { ends = h w.disk p; on_way = past } }

  pub Triple-fail :
      {A : Type 0} {pre : Disk → Type 0} {post : A → Disk → Type 0} {bad : Disk → Type 0} (e : Text)
      → ((d : Disk) → pre d → bad d)
      → Triple ok pre (fail e) post bad
  Triple-fail e h = record { run = λ w p past. record { ends = h w.disk p; on_way = past } }

  Left-handled :
      {A : Type 0} {post : A → Disk → Type 0} {good : Disk → Type 0} (e : Text)
      → (r : Reply Text (Unit {0}) × World) → Left ok (λ _. good) good r
      → Left ok post good (handled {A = A} e r)
  Left-handled e (success a, w) l = record { ends = l.ends; on_way = l.on_way }
  Left-handled e (failure other, w) l = record { ends = l.ends; on_way = l.on_way }

  -- The handler leads from the failure's property to another one, whether it succeeds or not.
  Left-cleaned_up :
      {A : Type 0} {post : A → Disk → Type 0} {bad good : Disk → Type 0} (h : Sys (Unit {0}))
      → Triple ok bad h (λ _. good) good
      → (r : Reply Text A × World) → Left ok post bad r
      → Left ok post good (cleaned_up h r)
  Left-cleaned_up h hh (success a, w) l = record { ends = l.ends; on_way = l.on_way }
  Left-cleaned_up h hh (failure e, w) l = Left-handled e (h w) (hh.run w l.ends l.on_way)

  pub Triple-on_failure :
      {A : Type 0} {pre : Disk → Type 0} {post : A → Disk → Type 0} {bad good : Disk → Type 0}
      (m : Sys A) (h : Sys (Unit {0}))
      → Triple ok pre m post bad
      → Triple ok bad h (λ _. good) good
      → Triple ok pre (on_failure m h) post good
  Triple-on_failure m h hm hh = record {
    run = λ w p past. Left-cleaned_up h hh (m w) (hm.run w p past);
  }

  Left-attempted :
      {A : Type 0} {I bad : Disk → Type 0} (r : Reply Text A × World)
      → Left ok (λ _. I) I r
      → Left ok (λ _. I) bad (attempted r)
  Left-attempted (success a, w) l = record { ends = l.ends; on_way = l.on_way }
  Left-attempted (failure e, w) l = record { ends = l.ends; on_way = l.on_way }

  -- A call that is only attempted cannot fail.
  pub Triple-attempt :
      {A : Type 0} {pre I bad : Disk → Type 0} (m : Sys A)
      → Triple ok pre m (λ _. I) I
      → Triple ok pre (attempt m) (λ _. I) bad
  Triple-attempt m hm = record { run = λ w p past. Left-attempted (m w) (hm.run w p past) }

  Left-read_by :
      {A : Type 0} {pre bad : Disk → Type 0} {post : A → Disk → Type 0} (f : Disk → A)
      → ((d : Disk) → pre d → ok d × post (f d) d × bad d)
      → (o : Option Fault) (w : World) → pre w.disk
      → All ok w.past
      → Left ok post bad (read_by o f w)
  Left-read_by f h none w p past = record { ends = (h w.disk p).1; on_way = ((h w.disk p).0, past) }
  Left-read_by f h (some fault) w p past = record {
    ends = (h w.disk p).2;
    on_way = ((h w.disk p).0, past);
  }

  pub Triple-read :
      {A : Type 0} {pre bad : Disk → Type 0} {post : A → Disk → Type 0} (f : Disk → A)
      → ((d : Disk) → pre d → ok d × post (f d) d × bad d)
      → Triple ok pre (read f) post bad
  unfolding read
  Triple-read f h = record { run = λ w p past. Left-read_by f h (first_fault w.faults) w p past }

  Left-made :
      {post bad : Disk → Type 0} (r : Reply Text Disk) (w : World)
      → Leads post bad w.disk r
      → ok w.disk
      → All ok w.past
      → Left ok (λ _. post) bad (made r w)
  unfolding Leads
  Left-made (success d) w l o past = record { ends = l; on_way = (o, past) }
  Left-made (failure e) w l o past = record { ends = l; on_way = (o, past) }

  Left-call_by :
      {pre post bad : Disk → Type 0} (act : Disk → Reply Text Disk) (harm : Fault → Disk → Disk)
      → ((d : Disk) → pre d → ok d)
      → ((d : Disk) → pre d → Leads post bad d (act d))
      → ((fault : Fault) (d : Disk) → pre d → bad (harm fault d))
      → (o : Option Fault) (w : World) → pre w.disk
      → All ok w.past
      → Left ok (λ _. post) bad (call_by o act harm w)
  Left-call_by act harm fine leads harmed none w p past =
      Left-made (act w.disk) w (leads w.disk p) (fine w.disk p) past
  Left-call_by act harm fine leads harmed (some fault) w p past = record {
    ends = harmed fault w.disk p;
    on_way = (fine w.disk p, past);
  }

  pub Triple-call :
      {pre post bad : Disk → Type 0} (act : Disk → Reply Text Disk) (harm : Fault → Disk → Disk)
      → ((d : Disk) → pre d → ok d)
      → ((d : Disk) → pre d → Leads post bad d (act d))
      → ((fault : Fault) (d : Disk) → pre d → bad (harm fault d))
      → Triple ok pre (call act harm) (λ _. post) bad
  unfolding call
  Triple-call act harm fine leads harmed = record {
    run = λ w p past. Left-call_by act harm fine leads harmed (first_fault w.faults) w p past;
  }

  Left-weaken :
      {A : Type 0} {post post' : A → Disk → Type 0} {bad bad' : Disk → Type 0}
      → ((a : A) (d : Disk) → post a d → post' a d)
      → ((d : Disk) → bad d → bad' d)
      → (r : Reply Text A × World) → Left ok post bad r
      → Left ok post' bad' r
  Left-weaken hp hb (success a, w) l = record { ends = hp a w.disk l.ends; on_way = l.on_way }
  Left-weaken hp hb (failure e, w) l = record { ends = hb w.disk l.ends; on_way = l.on_way }

  pub Triple-weaken :
      {A : Type 0} {pre pre' : Disk → Type 0} {post post' : A → Disk → Type 0}
      {bad bad' : Disk → Type 0} {m : Sys A}
      → ((d : Disk) → pre' d → pre d)
      → ((a : A) (d : Disk) → post a d → post' a d)
      → ((d : Disk) → bad d → bad' d)
      → Triple ok pre m post bad
      → Triple ok pre' m post' bad'
  Triple-weaken {m} hq hp hb hm = record {
    run = λ w p past. Left-weaken hp hb (m w) (hm.run w (hq w.disk p) past);
  }
