-- ===== src/XvProc/Invariant.antt =====
-- Changes of the table that keep its invariants.
use mephi_os_labs.Prelude.{
  ℕ, ◌<◌, ◌≡◌, refl, ap, sym, ◌∙◌, subst, ◌≢◌, ◌⊎◌, inl, inr, false, Option, none, some, arith,
  ◌==◌, if◌then◌else◌, Bool-cases, ==_iff,
}
use mathlib.Core.Option.{none-ne-some, some-injective}
use mephi_os_labs.XvProc.{ProcState, Proc, Table, nproc, put, is_unused, is_zombie}
use mephi_os_labs.XvProc.Scan.{put-same, put-other}
use mephi_os_labs.XvProc.System.{
  on_cpu, is_alive, is_born, naps, HasParent, IsFamily, IsNumbered, IsRunning,
}

-- What holds of the new process and of the others holds of all behind the change.
pub put-elim :
    (P : ℕ → Proc → Type 0) (t : Table) (i : ℕ) (p : Proc)
    → P i p
    → ((q : ℕ) → q ≢ i → P q (t q))
    → (q : ℕ) → P q (put t i p q)
put-elim P t i p here there q = elim (Bool-cases (q == i)) [
  | inl e ↦
      subst (P q) (sym (put-same t i q p ((==_iff q i).0 e)))
        (subst (λ x. P x p) (sym ((==_iff q i).0 e)) here)
  | inr e ↦
      let ne : q ≢ i = not_equal q i e in subst (P q) (sym (put-other t i q p ne)) (there q ne)
]
  where
    not_equal : (q i : ℕ) → (q == i) ≡ false → q ≢ i
    not_equal q i h = ground arith

-- A change of a process that the process tree does not notice.
pub record Calm (q : ℕ) (p p' : Proc) : Type 0 where
  pub parent : p'.parent ≡ p.parent
  pub alive : is_alive p'.state ≡ is_alive p.state
  pub born : is_born p'.state ≡ is_born p.state
  pub zombie : is_zombie p'.state ≡ is_zombie p.state
  pub napping : naps q p ≡ false → naps q p' ≡ false

pub Calm-refl : (q : ℕ) (p : Proc) → Calm q p p
Calm-refl q p = record { parent = refl; alive = refl; born = refl; zombie = refl; napping = λ h. h }

pub put-Calm :
    (t : Table) (i : ℕ) (p : Proc) → Calm i (t i) p → (q : ℕ) → Calm q (t q) (put t i p q)
put-Calm t i p c = put-elim (λ q x. Calm q (t q) x) t i p c (λ q ne. Calm-refl q (t q))

pub Calm-HasParent :
    (t t' : Table) (q : ℕ)
    → ((x : ℕ) → x < nproc → Calm x (t x) (t' x))
    → q < nproc
    → HasParent t q
    → HasParent t' q
Calm-HasParent t t' q c hq h = record {
  parent = h.parent;
  is_parent = (c q hq).parent ∙ h.is_parent;
  in_table = h.in_table;
  another = h.another;
  alive = (c h.parent h.in_table).alive ∙ h.alive;
}

pub Calm-IsFamily :
    (init : ℕ) (t t' : Table)
    → ((x : ℕ) → x < nproc → Calm x (t x) (t' x))
    → IsFamily init t
    → IsFamily init t'
Calm-IsFamily init t t' c f = record {
  root = f.root;
  root_alive = (c init f.root).alive ∙ f.root_alive;
  kin = λ q hq ne b. Calm-HasParent t t' q c hq (f.kin q hq ne (sym (c q hq).born ∙ b));
  nap = λ q r hq hr p z.
      (c q hq).napping (f.nap q r hq hr (sym (c r hr).parent ∙ p) (sym (c r hr).zombie ∙ z));
}

-- A process that is in use keeps its pid.
abbrev pub Keeps : Proc → Proc → Type 0
Keeps p p' = is_unused p'.state ≡ false → (is_unused p.state ≡ false) × (p'.pid ≡ p.pid)

pub Keeps-IsNumbered :
    (n : ℕ) (t t' : Table)
    → ((x : ℕ) → x < nproc → Keeps (t x) (t' x))
    → IsNumbered n t
    → IsNumbered n t'
Keeps-IsNumbered n t t' k i = record {
  differ = λ q r hq hr ne uq ur e.
      let a = k q hq uq in let b = k r hr ur in i.differ q r hq hr ne a.0 b.0 (sym a.1 ∙ e ∙ b.1);
  fresh = λ q hq u. let a = k q hq u in subst (λ x. x < n) (sym a.1) (i.fresh q hq a.0);
}

-- Processes that run go on running.
pub stays-IsRunning :
    (cpus : ℕ → Option ℕ) (t t' : Table)
    → ((x : ℕ) → x < nproc → (t x).state ≡ ProcState.running → (t' x).state ≡ ProcState.running)
    → IsRunning cpus t
    → IsRunning cpus t'
stays-IsRunning cpus t t' k i = record {
  marked = λ c p h. let m = i.marked c p h in (m.0, k p m.0 m.1);
  once = i.once;
}

at_cpu :
    (cpus : ℕ → Option ℕ) (c d : ℕ) (o : Option ℕ) (p : ℕ)
    → on_cpu cpus c o d ≡ some p
    → ((d ≡ c) × (o ≡ some p)) ⊎ ((d ≢ c) × (cpus d ≡ some p))
at_cpu cpus c d o p h = elim (Bool-cases (d == c)) [
  | inl e ↦ inl ((==_iff d c).0 e, sym (ap (λ b. if b then o else cpus d) e) ∙ h)
  | inr e ↦ inr (not_equal d c e, sym (ap (λ b. if b then o else cpus d) e) ∙ h)
]
  where
    not_equal : (q i : ℕ) → (q == i) ≡ false → q ≢ i
    not_equal q i h = ground arith

-- A processor that its process leaves; the others go on.
pub leaves-IsRunning :
    (cpus : ℕ → Option ℕ) (c p : ℕ) (t t' : Table)
    → cpus c ≡ some p
    → ((x : ℕ)
        → x < nproc
        → x ≢ p
        → (t x).state ≡ ProcState.running
        → (t' x).state ≡ ProcState.running)
    → IsRunning cpus t
    → IsRunning (on_cpu cpus c none) t'
leaves-IsRunning cpus c p t t' here k i = record {
  marked = λ d q h. elim (at_cpu cpus c d none q h) [
    | inl e ↦ absurd (none-ne-some q e.1)
    | inr e ↦
        let m = i.marked d q e.1 in
        (m.0, k q m.0 (λ s. e.0 (i.once d c p (e.1 ∙ ap some s) here)) m.1)
  ];
  once = λ d e q hd he. elim (at_cpu cpus c d none q hd) [
    | inl a ↦ absurd (none-ne-some q a.1)
    | inr a ↦ elim (at_cpu cpus c e none q he) [
      | inl b ↦ absurd (none-ne-some q b.1)
      | inr b ↦ i.once d e q a.1 b.1
    ]
  ];
}

-- A processor that takes a process that did not run.
pub enters-IsRunning :
    (cpus : ℕ → Option ℕ) (c p : ℕ) (t t' : Table)
    → p < nproc
    → (t p).state ≢ ProcState.running
    → (t' p).state ≡ ProcState.running
    → ((x : ℕ) → x < nproc → (t x).state ≡ ProcState.running → (t' x).state ≡ ProcState.running)
    → IsRunning cpus t
    → IsRunning (on_cpu cpus c (some p)) t'
enters-IsRunning cpus c p t t' hp idle run k i = record {
  marked = λ d q h. elim (at_cpu cpus c d (some p) q h) [
    | inl e ↦
        let s = some-injective p q e.1 in
        (subst (λ x. x < nproc) s hp, subst (λ x. (t' x).state ≡ ProcState.running) s run)
    | inr e ↦ let m = i.marked d q e.1 in (m.0, k q m.0 m.1)
  ];
  once = λ d e q hd he. elim (at_cpu cpus c d (some p) q hd) [
    | inl a ↦ elim (at_cpu cpus c e (some p) q he) [
      | inl b ↦ a.0 ∙ sym b.0
      | inr b ↦ absurd (busy q e (some-injective p q a.1) b.1)
    ]
    | inr a ↦ elim (at_cpu cpus c e (some p) q he) [
      | inl b ↦ absurd (busy q d (some-injective p q b.1) a.1)
      | inr b ↦ i.once d e q a.1 b.1
    ]
  ];
}
  where
    busy : (q d : ℕ) → p ≡ q → cpus d ≢ some q
    busy q d s h = idle (subst (λ x. (t x).state ≡ ProcState.running) (sym s) (i.marked d q h).1)
