-- ===== src/Fibers/Tests.antt =====
-- The operations on a ring of three fibers, one of them finished.
use mephi_os_labs.Prelude.{◌≡◌, refl, true, false, some, [], ◌∷◌, arith}
use mephi_os_labs.Fibers.{Fibers, init_from, update, fiber_spawn, fiber_yield, fiber_try_join}
use mephi_os_labs.Fibers.Operations.{
  IsRing, IsRing-set, started, fiber_spawn-IsRing, fiber_yield-IsRing, fiber_try_join-IsRing,
}

-- 0 is current, 7 is finished, 9 is not.
abbrev three : Fibers
three = record {
  current = some 0;
  next = update (update (update (λ p. p) 0 7) 7 9) 9 0;
  finished = update (λ p. false) 7 true;
}

three-IsRing : IsRing three 0 (7 ∷ 9 ∷ [])
three-IsRing =
    IsRing-set three 0 (7 ∷ 9 ∷ []) refl ((refl, (refl, tt)), ((refl, tt), (tt, tt)))
      (refl, (refl, refl))

fiber_spawn-IsRing_example :
    (s' : Fibers) × (fiber_spawn 10 5 three ≡ some s')
    × IsRing s' 0 (7 ∷ 9 ∷ 5 ∷ [])
    × (s'.finished ≡ update (started three).finished 5 false)
fiber_spawn-IsRing_example =
    fiber_spawn-IsRing 10 5 three three-IsRing (refl, (refl, (refl, tt))) (omega arith)

fiber_yield-IsRing_example :
    (s' : Fibers) × (fiber_yield 10 three ≡ some s')
    × IsRing s' 9 (0 ∷ [])
    × (s'.finished ≡ (started three).finished)
unfolding init_from
fiber_yield-IsRing_example = fiber_yield-IsRing 10 three three-IsRing (omega arith)

fiber_try_join-IsRing_example :
    (s' : Fibers) × (fiber_try_join 10 three ≡ some (false, s')) × IsRing s' 0 (9 ∷ [])
unfolding init_from
fiber_try_join-IsRing_example = fiber_try_join-IsRing 10 three three-IsRing (omega arith)
