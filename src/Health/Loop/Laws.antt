-- ===== src/Health/Loop/Laws.antt =====
-- The loop never sleeps through a subscriber.
use pihole_cluster_admin.Prelude.{
  suc, ◌+◌, ◌-◌, ◌<◌, ◌≡◌, ◌≢◌, ◌⊎◌, inl, inr, refl, subst, Bool, true, false, Option, none, some,
  List, [], ◌∷◌, ◌==◌, nat_eq, arith, if◌then◌else◌,
}
use pihole_cluster_admin.Health.Loop.{
  Place, idle_test, idle_wait, woken, sweeping, active, changed, grace, expired, stopped, Polling,
  start, Event, joined, left, poke, go_on, signalled, tick, timer, done, broker_step, proceed,
  select, step, run, and_then, at, swept,
}

-- A loop that waits while there are subscribers has a signal, or a call is about to give one.
abbrev pub IsAwake : Polling → Type 0
IsAwake s = s.place ≡ idle_wait → 0 < s.n → (s.poked ≡ true) ⊎ (0 < s.unpoked)

abbrev Keeps : Option Polling → Type 0
Keeps none = Unit
Keeps (some s) = IsAwake s

guarded : (b : Bool) (s : Polling) → IsAwake s → Keeps (if b then none else some s)
guarded true s h = tt
guarded false s h = h

broker_step-IsAwake : (e : Event) (s : Polling) → IsAwake s → Keeps (broker_step e s)
unfolding broker_step
broker_step-IsAwake joined s h = λ here waiting. inr (omega arith)
broker_step-IsAwake left s h =
    guarded (s.n == 0) (record s { n = s.n - 1; unpoked = s.unpoked + 1 })
      (λ here waiting. inr (omega arith))
broker_step-IsAwake poke s h =
    guarded (s.unpoked == 0) (record s { unpoked = s.unpoked - 1; poked = true })
      (λ here waiting. inl refl)
broker_step-IsAwake _ s h = tt

-- After a test of the number, only an empty cluster of subscribers can be waited for.
counted :
    (none_left some_left : Place) (s : Polling) (b : Bool)
    → (s.n == 0) ≡ b
    → some_left ≢ idle_wait
    → IsAwake (if b then at none_left s else at some_left s)
counted none_left some_left s true e elsewhere = λ here waiting. absurd (ground arith)
counted none_left some_left s false e elsewhere = λ here waiting. absurd (elsewhere here)

sweeping-elsewhere : sweeping ≢ idle_wait
sweeping-elsewhere e = cc

active-elsewhere : active ≢ idle_wait
active-elsewhere e = cc

woken-elsewhere : woken ≢ idle_wait
woken-elsewhere e = cc

changed-elsewhere : changed ≢ idle_wait
changed-elsewhere e = cc

expired-elsewhere : expired ≢ idle_wait
expired-elsewhere e = cc

stopped-elsewhere : stopped ≢ idle_wait
stopped-elsewhere e = cc

elsewhere-IsAwake : (s : Polling) → s.place ≢ idle_wait → IsAwake s
elsewhere-IsAwake s away = λ here waiting. absurd (away here)

proceed-IsAwake : (g : Bool) (p : Place) (s : Polling) → Keeps (proceed g p s)
unfolding proceed
proceed-IsAwake g idle_test s = counted idle_wait sweeping s (s.n == 0) refl sweeping-elsewhere
proceed-IsAwake g woken s = counted idle_test sweeping s (s.n == 0) refl sweeping-elsewhere
proceed-IsAwake g sweeping s = elsewhere-IsAwake (swept s) active-elsewhere
proceed-IsAwake g changed s =
    counted (if g then grace else idle_test) active s (s.n == 0) refl active-elsewhere
proceed-IsAwake g expired s = counted idle_test active s (s.n == 0) refl active-elsewhere
proceed-IsAwake g _ s = tt

taken :
    (b : Bool) (p : Place) (s : Polling)
    → p ≢ idle_wait
    → Keeps (if b then some (record s { place = p; poked = false }) else none)
taken true p s away = elsewhere-IsAwake (record s { place = p; poked = false }) away
taken false p s away = tt

select-IsAwake : (e : Event) (p : Place) (s : Polling) → Keeps (select e p s)
unfolding select
select-IsAwake signalled idle_wait s = taken s.poked woken s woken-elsewhere
select-IsAwake signalled active s = taken s.poked changed s changed-elsewhere
select-IsAwake signalled grace s = taken s.poked active s active-elsewhere
select-IsAwake tick active s = elsewhere-IsAwake (swept s) active-elsewhere
select-IsAwake timer grace s = elsewhere-IsAwake (at expired s) expired-elsewhere
select-IsAwake done idle_wait s = elsewhere-IsAwake (at stopped s) stopped-elsewhere
select-IsAwake done active s = elsewhere-IsAwake (at stopped s) stopped-elsewhere
select-IsAwake done grace s = elsewhere-IsAwake (at stopped s) stopped-elsewhere
select-IsAwake _ _ s = tt

step-IsAwake : (g : Bool) (e : Event) (s : Polling) → IsAwake s → Keeps (step g e s)
unfolding step
step-IsAwake g joined s h = broker_step-IsAwake joined s h
step-IsAwake g left s h = broker_step-IsAwake left s h
step-IsAwake g poke s h = broker_step-IsAwake poke s h
step-IsAwake g go_on s h = proceed-IsAwake g s.place s
step-IsAwake g signalled s h = select-IsAwake signalled s.place s
step-IsAwake g tick s h = select-IsAwake tick s.place s
step-IsAwake g timer s h = select-IsAwake timer s.place s
step-IsAwake g done s h = select-IsAwake done s.place s

then_kept :
    (o : Option Polling) (f : Polling → Option Polling)
    → Keeps o
    → ((t : Polling) → IsAwake t → Keeps (f t))
    → Keeps (and_then o f)
then_kept none f k rest = tt
then_kept (some t) f k rest = rest t k

run-IsAwake : (g : Bool) (es : List Event) (s : Polling) → IsAwake s → Keeps (run g es s)
unfolding run
run-IsAwake g [] s h = h
run-IsAwake g (e ∷ es) s h =
    then_kept (step g e s) (run g es) (step-IsAwake g e s h) (run-IsAwake g es)

-- From a wait with a signal and a subscriber, three steps of the loop make a sweep.
wakes :
    (g : Bool) (s : Polling)
    → s.place ≡ idle_wait
    → 0 < s.n
    → s.poked ≡ true
    → run g (signalled ∷ go_on ∷ go_on ∷ []) s
      ≡ some (record s { place = active; poked = false; sweeps = suc s.sweeps })
unfolding run step select proceed
wakes g s here some_left signal =
    let some_n : (s.n == 0) ≡ false = ground arith in rw (here, signal, some_n) refl

-- Whatever the order of the steps of the loop and of the broker, a loop that waits idly while there
-- are subscribers misses none of them: either a call of Subscribe or cancel has yet to give its
-- signal, or the signal is there, and then the next three steps of the loop end in a sweep.
pub run_wakes :
    (g : Bool) (es : List Event) (s : Polling)
    → run g es start ≡ some s
    → s.place ≡ idle_wait
    → 0 < s.n
    → (0 < s.unpoked)
      ⊎ (run g (signalled ∷ go_on ∷ go_on ∷ []) s
          ≡ some (record s { place = active; poked = false; sweeps = suc s.sweeps }))
run_wakes g es s ran here some_left =
    elim (subst Keeps ran (run-IsAwake g es start (λ at some_n. absurd cc)) here some_left) [
      | inl signal ↦ inr (wakes g s here some_left signal)
      | inr call ↦ inl call
    ]
