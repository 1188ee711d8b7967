-- ===== src/XvProc/Exit.antt =====
-- `exit`: the parent is woken, the children go to init, and the process becomes a zombie.
use mephi_os_labs.Prelude.{
  ℕ, zero, suc, ◌≤◌, ◌<◌, ◌≡◌, refl, ap, sym, ◌∙◌, subst, ◌≢◌, ◌⊎◌, inl, inr, Bool, true, false,
  Option, none, some, arith, if◌then◌else◌,
}
use mathlib.Core.Option.{none-ne-some, some-injective}
use mephi_os_labs.XvProc.{
  ProcState, Chan, Proc, Table, nproc, put, is_zombie, woken, wakeup1, parent_is, adopt,
  wake_parent, for_each,
}
use mephi_os_labs.XvProc.Scan.{put-same, put-other, wakeup1-at}
use mephi_os_labs.XvProc.System.{is_alive, is_born, naps}
use mephi_os_labs.XvProc.Invariant.{put-elim, Keeps}
use mephi_os_labs.XvProc.Simple.{Keeps-self, woken-elim, woken-Calm, woken-Keeps, woken-running}
use mephi_os_labs.XvProc.Fork.{true≢false}

-- A change that leaves parents aside: `Calm` without them, and with what the other invariants need.
pub record Near (q : ℕ) (p p' : Proc) : Type 0 where
  pub alive : is_alive p'.state ≡ is_alive p.state
  pub born : is_born p'.state ≡ is_born p.state
  pub zombie : is_zombie p'.state ≡ is_zombie p.state
  pub napping : naps q p ≡ false → naps q p' ≡ false
  pub keeps : Keeps p p'
  pub runs : p.state ≡ ProcState.running → p'.state ≡ ProcState.running

Near-refl : (q : ℕ) (p : Proc) → Near q p p
Near-refl q p = record {
  alive = refl;
  born = refl;
  zombie = refl;
  napping = λ h. h;
  keeps = Keeps-self p;
  runs = λ h. h;
}

Near-trans : (q : ℕ) {p r s : Proc} → Near q p r → Near q r s → Near q p s
Near-trans q a b = record {
  alive = b.alive ∙ a.alive;
  born = b.born ∙ a.born;
  zombie = b.zombie ∙ a.zombie;
  napping = λ h. b.napping (a.napping h);
  keeps = λ u. let x = b.keeps u in let y = a.keeps x.0 in (y.0, x.1 ∙ y.1);
  runs = λ h. b.runs (a.runs h);
}

woken-Near : (q : ℕ) (chan : Chan) (p : Proc) → Near q p (woken chan p)
woken-Near q chan p =
    let c = woken-Calm q chan p in
    record {
      alive = c.alive;
      born = c.born;
      zombie = c.zombie;
      napping = c.napping;
      keeps = woken-Keeps chan p;
      runs = woken-running chan p;
    }

-- A process that is woken by its own address does not sleep in `wait`.
woken-naps : (q : ℕ) (p : Proc) → naps q (woken (Chan.proc q) p) ≡ false
woken-naps q p = choose (naps q p) refl
  where
    choose :
        (b : Bool)
        → naps q p ≡ b
        → naps q (if b then record p { state = ProcState.runnable } else p) ≡ false
    choose true e = refl
    choose false e = e

woken-parent : (chan : Chan) (p : Proc) → (woken chan p).parent ≡ p.parent
woken-parent chan p = woken-elim (λ x. x.parent ≡ p.parent) chan p refl (λ _. refl)

-- The table after `n` rounds of the loop: the children among them are init's, and init is awake if one of
-- them was a zombie.
pub record Adopted (cur init n : ℕ) (t t' : Table) : Type 0 where
  pub near : (q : ℕ) → q < nproc → Near q (t q) (t' q)
  pub done :
      (q : ℕ)
      → q < n
      → q < nproc
      → (t' q).parent ≡ (if parent_is (t q).parent cur then some init else (t q).parent)
  pub left : (q : ℕ) → n ≤ q → q < nproc → (t' q).parent ≡ (t q).parent
  pub wakes :
      (q : ℕ)
      → q < n
      → q < nproc
      → parent_is (t q).parent cur ≡ true
      → is_zombie (t q).state ≡ true
      → naps init (t' init) ≡ false

last_or_below : (n q : ℕ) → q < suc n → (q ≡ n) ⊎ (q < n)
last_or_below n q h = ground arith

-- A round at a process that is no child.
skip-Adopted :
    (cur init n : ℕ) (t t' : Table)
    → parent_is (t n).parent cur ≡ false
    → n < nproc
    → Adopted cur init n t t'
    → Adopted cur init (suc n) t t'
skip-Adopted cur init n t t' e hn a = record {
  near = a.near;
  done = λ q h hq. elim (last_or_below n q h) [
    | inl s ↦
        subst
          (λ x. (t' x).parent ≡ (if parent_is (t x).parent cur then some init else (t x).parent))
          (sym s)
          (a.left n (omega arith) hn ∙ ap (λ b. if b then some init else (t n).parent) (sym e))
    | inr l ↦ a.done q l hq
  ];
  left = λ q h hq. a.left q (omega arith) hq;
  wakes = λ q h hq c z. elim (last_or_below n q h) [
    | inl s ↦ absurd (true≢false (sym c ∙ ap (λ x. parent_is (t x).parent cur) s ∙ e))
    | inr l ↦ a.wakes q l hq c z
  ];
}

-- A round at a child, behind which the table is `u`: its parent is init, and who slept may be awake.
child-Adopted :
    (cur init n : ℕ) (t t' u : Table)
    → parent_is (t n).parent cur ≡ true
    → n < nproc
    → Adopted cur init n t t'
    → ((q : ℕ) → q < nproc → Near q (t' q) (u q))
    → ((q : ℕ) → q < nproc → q ≢ n → (u q).parent ≡ (t' q).parent)
    → (u n).parent ≡ some init
    → (is_zombie (t n).state ≡ true → naps init (u init) ≡ false)
    → init < nproc
    → Adopted cur init (suc n) t u
child-Adopted cur init n t t' u c hn a near same here wake hi = record {
  near = λ q hq. Near-trans q (a.near q hq) (near q hq);
  done = λ q h hq. elim (last_or_below n q h) [
    | inl s ↦
        subst (λ x. (u x).parent ≡ (if parent_is (t x).parent cur then some init else (t x).parent))
          (sym s) (here ∙ ap (λ b. if b then some init else (t n).parent) (sym c))
    | inr l ↦ same q hq (λ e. omega arith) ∙ a.done q l hq
  ];
  left = λ q h hq. same q hq (λ e. omega arith) ∙ a.left q (omega arith) hq;
  wakes = λ q h hq p z. elim (last_or_below n q h) [
    | inl s ↦ wake (subst (λ x. is_zombie (t x).state ≡ true) s z)
    | inr l ↦ (near init hi).napping (a.wakes q l hq p z)
  ];
}

parent-Near : (q : ℕ) (p : Proc) (o : Option ℕ) → Near q p (record p { parent = o })
parent-Near q p o = record {
  alive = refl;
  born = refl;
  zombie = refl;
  napping = λ h. h;
  keeps = λ h. (h, refl);
  runs = λ h. h;
}

-- One round of the loop.
adopt-Adopted :
    (cur init n : ℕ) (t t' : Table)
    → n < nproc
    → init < nproc
    → Adopted cur init n t t'
    → Adopted cur init (suc n) t (adopt cur init n t')
unfolding adopt
adopt-Adopted cur init n t t' hn hi a =
    choose (parent_is (t n).parent cur) (is_zombie (t n).state) refl refl
      (ap (λ o. parent_is o cur) (a.left n (omega arith) hn)) ((a.near n hn).zombie)
  where
    t1 : Table
    t1 = put t' n (record (t' n) { parent = some init })

    near1 : (q : ℕ) → Near q (t' q) (t1 q)
    near1 q =
        put-elim (λ x y. Near x (t' x) y) t' n (record (t' n) { parent = some init })
          (parent-Near n (t' n) (some init)) (λ x ne. Near-refl x (t' x)) q

    here1 : (t1 n).parent ≡ some init
    here1 = ap (λ p. p.parent) (put-same t' n n (record (t' n) { parent = some init }) refl)

    same1 : (q : ℕ) → q ≢ n → (t1 q).parent ≡ (t' q).parent
    same1 q ne = ap (λ p. p.parent) (put-other t' n q (record (t' n) { parent = some init }) ne)

    u : Table
    u = wakeup1 (Chan.proc init) t1

    at : (q : ℕ) → q < nproc → u q ≡ woken (Chan.proc init) (t1 q)
    at q hq = wakeup1-at (Chan.proc init) t1 q hq

    near2 : (q : ℕ) → q < nproc → Near q (t' q) (u q)
    near2 q hq =
        Near-trans q (near1 q)
          (subst (Near q (t1 q)) (sym (at q hq)) (woken-Near q (Chan.proc init) (t1 q)))

    parent2 : (q : ℕ) → q < nproc → (u q).parent ≡ (t1 q).parent
    parent2 q hq = ap (λ p. p.parent) (at q hq) ∙ woken-parent (Chan.proc init) (t1 q)

    round : Bool → Bool → Table
    round b z = if b then (if z then u else t1) else t'

    choose :
        (b z : Bool)
        → parent_is (t n).parent cur ≡ b
        → is_zombie (t n).state ≡ z
        → parent_is (t' n).parent cur ≡ parent_is (t n).parent cur
        → is_zombie (t' n).state ≡ is_zombie (t n).state
        → Adopted cur init (suc n) t (round (parent_is (t' n).parent cur) (is_zombie (t' n).state))
    choose false z eb ez e f =
        subst (λ x. Adopted cur init (suc n) t (round x (is_zombie (t' n).state))) (sym (e ∙ eb))
          (skip-Adopted cur init n t t' eb hn a)
    choose true false eb ez e f =
        subst (λ x. Adopted cur init (suc n) t (round x (is_zombie (t' n).state))) (sym (e ∙ eb))
          (subst (λ x. Adopted cur init (suc n) t (round true x)) (sym (f ∙ ez))
            (child-Adopted cur init n t t' t1 eb hn a (λ q hq. near1 q) (λ q hq ne. same1 q ne)
              here1 (λ z. absurd (true≢false (sym z ∙ ez))) hi))
    choose true true eb ez e f =
        subst (λ x. Adopted cur init (suc n) t (round x (is_zombie (t' n).state))) (sym (e ∙ eb))
          (subst (λ x. Adopted cur init (suc n) t (round true x)) (sym (f ∙ ez))
            (child-Adopted cur init n t t' u eb hn a near2 (λ q hq ne. parent2 q hq ∙ same1 q ne)
              (parent2 n hn ∙ here1) (λ _. ap (naps init) (at init hi) ∙ woken-naps init (t1 init))
              hi))

pub for_each-Adopted :
    (cur init n : ℕ) (t : Table)
    → n ≤ nproc
    → init < nproc
    → Adopted cur init n t (for_each n (adopt cur init) t)
unfolding for_each
for_each-Adopted cur init zero t h hi = record {
  near = λ q hq. Near-refl q (t q);
  done = λ q h hq. absurd (omega arith);
  left = λ q h hq. refl;
  wakes = λ q h hq c z. absurd (omega arith);
}
for_each-Adopted cur init (suc n) t h hi =
    adopt-Adopted cur init n t (for_each n (adopt cur init) t) (omega arith) hi
      (for_each-Adopted cur init n t (omega arith) hi)

-- The parent is woken, and nothing else changes.
pub record Woken (t t' : Table) (o : Option ℕ) : Type 0 where
  pub near : (q : ℕ) → q < nproc → Near q (t q) (t' q)
  pub parents : (q : ℕ) → q < nproc → (t' q).parent ≡ (t q).parent
  pub awake : (p : ℕ) → o ≡ some p → p < nproc → naps p (t' p) ≡ false

pub wake_parent-Woken : (o : Option ℕ) (t : Table) → Woken t (wake_parent o t) o
wake_parent-Woken none t = record {
  near = λ q hq. Near-refl q (t q);
  parents = λ q hq. refl;
  awake = λ p e hp. absurd (none-ne-some p e);
}
wake_parent-Woken (some p) t =
    let at = λ (q : ℕ) (hq : q < nproc). wakeup1-at (Chan.proc p) t q hq in
    record {
      near = λ q hq. subst (Near q (t q)) (sym (at q hq)) (woken-Near q (Chan.proc p) (t q));
      parents = λ q hq. ap (λ x. x.parent) (at q hq) ∙ woken-parent (Chan.proc p) (t q);
      awake = λ r e hr.
          subst (λ x. naps x (wakeup1 (Chan.proc p) t x) ≡ false) (some-injective p r e)
            (let hp = subst (λ x. x < nproc) (sym (some-injective p r e)) hr in
              ap (naps p) (at p hp) ∙ woken-naps p (t p));
    }
