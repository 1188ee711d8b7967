-- ===== src/Fibers.antt =====
-- fibers/fibers/fiber.c: the ring of fibers that `next` links, and the operations on it. A fiber is its
-- address; the switch of the stacks itself is not modelled.
pub mod Ring
pub mod Operations
mod Tests
use mephi_os_labs.Prelude.{ℕ, zero, suc, Bool, true, false, Option, none, some, ◌==◌, if◌then◌else◌}

-- The fields of `struct Fiber` that the scheduler reads, by address, and `CurrentFiber`.
pub record Fibers : Type 0 where
  pub current : Option ℕ
  pub next : ℕ → ℕ
  pub finished : ℕ → Bool

-- The address of the static `Main` in `InitMainFiber`.
abbrev pub main_fiber : ℕ
main_fiber = 0

abbrev pub update {ℓ} : {A : Type ℓ} → (ℕ → A) → ℕ → A → ℕ → A
update f p v q = if p == q then v else f q

-- `InitMainFiber`: the current fiber behind it, and the state.
unfoldable pub init_from : Option ℕ → Fibers → ℕ × Fibers
init_from (some c) s = (c, s)
init_from none s = (
  main_fiber,
  record {
    current = some main_fiber;
    next = update s.next main_fiber main_fiber;
    finished = update s.finished main_fiber false;
  },
)

abbrev pub init_main_fiber : Fibers → ℕ × Fibers
init_main_fiber s = init_from s.current s

-- `while (tail->next != CurrentFiber) tail = tail->next;` with fuel.
unfoldable pub find_tail : ℕ → (ℕ → ℕ) → ℕ → ℕ → Option ℕ
find_tail zero next current tail = none
find_tail (suc fuel) next current tail =
    let rest = find_tail fuel next current (next tail) in
    if next tail == current then some tail else rest

-- The links behind `tail->next = fiber`.
abbrev pub linked : (ℕ → ℕ) → ℕ → ℕ → ℕ → ℕ → ℕ
linked next current fiber tail = update (update next fiber current) tail fiber

-- The state with the new fiber behind `tail`.
abbrev pub spawned : Fibers → ℕ → ℕ → Option ℕ → Option Fibers
spawned s current fiber none = none
spawned s current fiber (some tail) = some (record {
  current = s.current;
  next = linked s.next current fiber tail;
  finished = update s.finished fiber false;
})

-- `FiberSpawn` behind its test of `f`, with the address that `malloc` gives.
unfoldable pub fiber_spawn : ℕ → ℕ → Fibers → Option Fibers
fiber_spawn fuel fiber s =
    let r = init_main_fiber s in
    spawned r.1 r.0 fiber (find_tail fuel (update r.1.next fiber r.0) r.0 r.0)

-- The loop of `FreeFinishedFibers`, with fuel; the result is the new links.
unfoldable pub free_from : ℕ → (ℕ → Bool) → ℕ → (ℕ → ℕ) → ℕ → ℕ → Option (ℕ → ℕ)
free_from zero finished current next prev cur = none
free_from (suc fuel) finished current next prev cur =
    let unlinked = update next prev (next cur) in
    let freed = free_from fuel finished current unlinked prev (unlinked prev) in
    let kept = free_from fuel finished current next cur (next cur) in
    if cur == current then some next else (if finished cur then freed else kept)

abbrev pub with_links : Fibers → Option (ℕ → ℕ) → Option Fibers
with_links s none = none
with_links s (some next) = some (record s { next = next })

-- `FreeFinishedFibers`
unfoldable pub free_finished_fibers : ℕ → ℕ → Fibers → Option Fibers
free_finished_fibers fuel current s =
    with_links s (free_from fuel s.finished current s.next current (s.next current))

abbrev pub switched : ℕ → Option Fibers → Option Fibers
switched from none = none
switched from (some s) =
    some (if s.next from == from then s else record s { current = some (s.next from) })

-- `FiberYield`: the state in which the fiber that is switched to goes on.
unfoldable pub fiber_yield : ℕ → Fibers → Option Fibers
unfolding free_finished_fibers
fiber_yield fuel s = let r = init_main_fiber s in switched r.0 (free_finished_fibers fuel r.0 r.1)

abbrev pub alone : ℕ → Option Fibers → Option (Bool × Fibers)
alone c none = none
alone c (some s) = some (s.next c == c, s)

-- `FiberTryJoin`
unfoldable pub fiber_try_join : ℕ → Fibers → Option (Bool × Fibers)
unfolding free_finished_fibers
fiber_try_join fuel s = let r = init_main_fiber s in alone r.0 (free_finished_fibers fuel r.0 r.1)

-- What `FiberTrampoline` does when the function of the current fiber returns, up to its yield.
unfoldable pub finish_current : Fibers → Fibers
finish_current s = elim s.current [
  | none ↦ s
  | some c ↦ record s { finished = update s.finished c true }
]
