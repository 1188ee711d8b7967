-- ===== src/Fibers/Operations.antt =====
-- The operations on fibers against a queue: the current fiber, and those that run behind it, in order.
use mephi_os_labs.Prelude.{
  ℕ, ◌<◌, ◌≡◌, refl, ap, sym, ◌∙◌, subst, inl, inr, Bool, true, false, none, some, List, [], ◌∷◌,
  ◌++◌, arith, ◌==◌, Bool-cases, length, ==_refl,
}
use mephi_os_labs.Fibers.{
  Fibers, main_fiber, update, init_from, init_main_fiber, find_tail, linked, spawned, with_links,
  switched, alone, fiber_spawn, free_finished_fibers, fiber_yield, fiber_try_join,
}
use mephi_os_labs.Fibers.Ring.{
  IsPath, IsOther, Distinct, last, unfinished, IsPath-update, IsPath-update-last, IsPath-append,
  find_tail-last, free_from-unfinished,
}

-- The state with `Main` in place.
abbrev pub started : Fibers → Fibers
started s = (init_main_fiber s).1

-- `c` is current, and the links go from it through `xs` and back to it.
pub record IsRing (s : Fibers) (c : ℕ) (xs : List ℕ) : Type 0 where
  pub first : (init_main_fiber s).0 ≡ c
  pub current : (started s).current ≡ some c
  pub distinct : Distinct (c ∷ xs)
  pub path : IsPath (started s).next c xs c

-- Before the first call the ring is the main fiber alone.
pub IsRing-init : (s : Fibers) → s.current ≡ none → IsRing s main_fiber []
unfolding init_from
IsRing-init s e =
    let q = ap (λ o. init_from o s) e in
    record {
      first = ap (λ r. r.0) q;
      current = ap (λ r. r.1.current) q;
      distinct = (tt, tt);
      path = ap (λ r. r.1.next main_fiber) q;
    }

-- A state whose current fiber is set is its own start.
pub IsRing-set :
    (s : Fibers) (c : ℕ) (xs : List ℕ)
    → s.current ≡ some c
    → Distinct (c ∷ xs)
    → IsPath s.next c xs c
    → IsRing s c xs
unfolding init_from
IsRing-set s c xs e d p =
    let q : init_main_fiber s ≡ (c, s) = ap (λ o. init_from o s) e in
    record {
      first = ap (λ r. r.0) q;
      current = ap (λ r. r.1.current) q ∙ e;
      distinct = d;
      path = subst (λ r. IsPath r.1.next c xs c) (sym q) p;
    }

last_other : (f c : ℕ) (xs : List ℕ) → IsOther f (c ∷ xs) → (last c xs == f) ≡ false
last_other f c [] o = ground arith
last_other f c (x ∷ xs) o = last_other f x xs o.1

IsOther-append :
    (a f : ℕ) (xs : List ℕ) → IsOther a xs → (a == f) ≡ false → IsOther a (xs ++ f ∷ [])
IsOther-append a f [] o h = (h, tt)
IsOther-append a f (x ∷ xs) o h = (o.0, IsOther-append a f xs o.1 h)

Distinct-append : (f : ℕ) (xs : List ℕ) → Distinct xs → IsOther f xs → Distinct (xs ++ f ∷ [])
Distinct-append f [] d o = (tt, tt)
Distinct-append f (x ∷ xs) d o =
    (IsOther-append x f xs d.0 (let q = o.0 in ground arith), Distinct-append f xs d.1 o.1)

-- `FiberSpawn` puts the new fiber at the end of the queue, unfinished, and leaves the rest as it
-- was: the loop that looks for the tail ends. The new address must not be in the ring, and the fuel
-- above the length of the queue.
pub fiber_spawn-IsRing :
    (fuel fiber : ℕ) (s : Fibers) {c : ℕ} {xs : List ℕ}
    → IsRing s c xs
    → IsOther fiber (c ∷ xs)
    → length xs < fuel
    → (s' : Fibers) × (fiber_spawn fuel fiber s ≡ some s')
      × IsRing s' c (xs ++ fiber ∷ [])
      × (s'.finished ≡ update (started s).finished fiber false)
unfolding fiber_spawn
fiber_spawn-IsRing fuel fiber s {c} {xs} r o h = (
  result,
  ap (λ d. spawned (started s) d fiber (find_tail fuel (update (started s).next fiber d) d d))
        r.first
      ∙ ap (spawned (started s) c fiber) found,
  IsRing-set result c (xs ++ fiber ∷ []) r.current (Distinct-append fiber (c ∷ xs) r.distinct o) (
      IsPath-append (linked (started s).next c fiber (last c xs)) c xs fiber c to_fiber from_fiber),
  refl,
)
  where
    result : Fibers
    result = record {
      current = (started s).current;
      next = linked (started s).next c fiber (last c xs);
      finished = update (started s).finished fiber false;
    }

    path : IsPath (update (started s).next fiber c) c xs c
    path = IsPath-update (started s).next c xs c fiber c o.0 o.1 r.path

    found : find_tail fuel (update (started s).next fiber c) c c ≡ some (last c xs)
    found = find_tail-last fuel (update (started s).next fiber c) c c xs h r.distinct.0 path

    to_fiber : IsPath (linked (started s).next c fiber (last c xs)) c xs fiber
    to_fiber = IsPath-update-last (update (started s).next fiber c) c xs c fiber r.distinct path

    from_fiber : linked (started s).next c fiber (last c xs) fiber ≡ c
    from_fiber = rw (last_other fiber c xs o) (rw (==_refl fiber))

IsOther-unfinished :
    (finished : ℕ → Bool) (a : ℕ) (xs : List ℕ) → IsOther a xs → IsOther a (unfinished finished xs)
IsOther-unfinished finished a [] o = tt
IsOther-unfinished finished a (x ∷ xs) o = elim (Bool-cases (finished x)) [
  | inl f ↦ rw f (IsOther-unfinished finished a xs o.1)
  | inr f ↦ rw f (o.0, IsOther-unfinished finished a xs o.1)
]

Distinct-unfinished :
    (finished : ℕ → Bool) (xs : List ℕ) → Distinct xs → Distinct (unfinished finished xs)
Distinct-unfinished finished [] d = tt
Distinct-unfinished finished (x ∷ xs) d = elim (Bool-cases (finished x)) [
  | inl f ↦ rw f (Distinct-unfinished finished xs d.1)
  | inr f ↦ rw f (IsOther-unfinished finished x xs d.0, Distinct-unfinished finished xs d.1)
]

-- What both callers of `FreeFinishedFibers` have behind it.
record Freed (fuel : ℕ) (s : Fibers) (c : ℕ) (xs : List ℕ) : Type 0 where
  result : Fibers
  run : free_finished_fibers fuel (init_main_fiber s).0 (started s) ≡ some result
  current : result.current ≡ some c
  finished : result.finished ≡ (started s).finished
  path : IsPath result.next c (unfinished (started s).finished xs) c
  distinct : Distinct (c ∷ unfinished (started s).finished xs)

freed :
    (fuel : ℕ) (s : Fibers) {c : ℕ} {xs : List ℕ}
    → IsRing s c xs
    → length xs < fuel
    → Freed fuel s c xs
unfolding free_finished_fibers
freed fuel s {c} {xs} r h =
    let (next', run, path, _) =
      free_from-unfinished fuel (started s).finished c c (started s).next xs h r.distinct
        r.distinct.0 r.path in
    record {
      result = record (started s) { next = next' };
      run =
          ap (λ d. free_finished_fibers fuel d (started s)) r.first
          ∙ ap (with_links (started s)) run;
      current = r.current;
      finished = refl;
      path = path;
      distinct = (
        IsOther-unfinished (started s).finished c xs r.distinct.0,
        Distinct-unfinished (started s).finished xs r.distinct.1,
      );
    }

-- The queue behind a yield: the current fiber goes to its end, and the first unfinished one runs.
abbrev pub yielded : ℕ → List ℕ → ℕ × List ℕ
yielded c [] = (c, [])
yielded c (x ∷ xs) = (x, xs ++ c ∷ [])

switched-IsRing :
    (t : Fibers) (c : ℕ) (live : List ℕ)
    → t.current ≡ some c
    → Distinct (c ∷ live)
    → IsPath t.next c live c
    → (s' : Fibers) × (switched c (some t) ≡ some s')
      × IsRing s' (yielded c live).0 (yielded c live).1
      × (s'.finished ≡ t.finished)
switched-IsRing t c [] e d p = (t, rw p (rw (==_refl c)), IsRing-set t c [] e d p, refl)
switched-IsRing t c (x ∷ xs) e d p =
    let other : (x == c) ≡ false = let q = d.0.0 in ground arith in
    (
      record t { current = some x },
      rw (p.0) (rw other),
      IsRing-set (record t { current = some x }) x (xs ++ c ∷ []) refl
          (Distinct-append c (x ∷ xs) d.1 d.0) (IsPath-append t.next x xs c x p.1 (p.0)),
      refl,
    )

-- `FiberYield` takes the finished fibers out of the queue, puts the current fiber at its end and goes
-- on with the first of those that are left, or with the current one if none is. The walk over the
-- ring ends, with fuel above the length of the queue.
pub fiber_yield-IsRing :
    (fuel : ℕ) (s : Fibers) {c : ℕ} {xs : List ℕ}
    → IsRing s c xs
    → length xs < fuel
    → (s' : Fibers) × (fiber_yield fuel s ≡ some s')
      × IsRing s'
          (yielded c (unfinished (started s).finished xs)).0
          (yielded c (unfinished (started s).finished xs)).1
      × (s'.finished ≡ (started s).finished)
unfolding fiber_yield
fiber_yield-IsRing fuel s {c} {xs} r h =
    let f : Freed fuel s c xs = freed fuel s r h in
    let (s', run, ring, same) =
      switched-IsRing f.result c (unfinished (started s).finished xs) f.current f.distinct f.path in
    (
      s',
      ap (switched (init_main_fiber s).0) f.run
          ∙ ap (λ d. switched d (some f.result)) r.first
          ∙ run,
      ring,
      same ∙ f.finished,
    )

-- No fiber is left.
abbrev pub is_empty : List ℕ → Bool
is_empty [] = true
is_empty _ = false

alone-is_empty :
    (t : Fibers) (c : ℕ) (live : List ℕ)
    → Distinct (c ∷ live)
    → IsPath t.next c live c
    → (t.next c == c) ≡ is_empty live
alone-is_empty t c [] d p = rw p (==_refl c)
alone-is_empty t c (x ∷ xs) d p = rw (p.0) (let q = d.0.0 in ground arith)

-- `FiberTryJoin` returns 1 exactly when every other fiber of the ring is finished; it takes those
-- out, and the queue of the others is as before.
pub fiber_try_join-IsRing :
    (fuel : ℕ) (s : Fibers) {c : ℕ} {xs : List ℕ}
    → IsRing s c xs
    → length xs < fuel
    → (s' : Fibers) × (fiber_try_join fuel s
        ≡ some (is_empty (unfinished (started s).finished xs), s'))
      × IsRing s' c (unfinished (started s).finished xs)
unfolding fiber_try_join
fiber_try_join-IsRing fuel s {c} {xs} r h =
    let f : Freed fuel s c xs = freed fuel s r h in
    (
      f.result,
      ap (alone (init_main_fiber s).0) f.run
          ∙ ap (λ d. alone d (some f.result)) r.first
          ∙ ap (λ b. some (b, f.result))
              (alone-is_empty f.result c (unfinished (started s).finished xs) f.distinct f.path),
      IsRing-set f.result c (unfinished (started s).finished xs) f.current f.distinct f.path,
    )
