-- ===== src/Process/Wake.antt =====
-- Who wakes up: `wakeup1`, and what `exit` does to the rest of the table.
use hyu_ele.Prelude.{
  ℕ, zero, suc, ◌≡◌, ◌≤◌, ◌⊎◌, inl, inr, refl, sym, ap, subst, ◌∙◌, arith, Bool, true, false, ◌&&◌,
  ◌==◌, leb, if◌then◌else◌, Bool-cases,
}
use hyu_ele.Prelude.Maps.{update}
use hyu_ele.Mlfq.{Ptr, nproc}
use hyu_ele.Sched.State.{Double, ProcState, runnable, Proc, Procs, is_sleeping}
use hyu_ele.Process.{is_zombie, wakeup_first, wakeup1, reparent}

module _ (F : Double) where
  -- A process sleeps on this channel.
  abbrev pub sleeps_on : ℕ → Proc F → Bool
  sleeps_on chan p = is_sleeping p.state && p.chan == chan

  wakeup_first_lem :
      (k chan : ℕ) (ps : Procs F) (x : ℕ)
      → wakeup_first F k chan ps x ≡ (
          if leb 1 x && leb x k && sleeps_on chan (ps x)
          then record (ps x) { state = runnable }
          else ps x)
  unfolding wakeup_first
  wakeup_first_lem zero chan ps x = ground arith
  wakeup_first_lem (suc k) chan ps x = elim (Bool-cases (x == suc k)) [
    | inl e ↦
        let same : x ≡ suc k = ground arith in
        rw same (ground (arith, wakeup_first_lem k chan ps (suc k)))
    | inr e ↦ ground (arith, wakeup_first_lem k chan ps x)
  ]

  -- `wakeup1` makes all processes of the table that sleep on the channel runnable and changes nothing
  -- else.
  pub wakeup1_lem :
      (chan : ℕ) (ps : Procs F) (x : ℕ)
      → wakeup1 F chan ps x ≡ (
          if leb 1 x && leb x nproc && sleeps_on chan (ps x)
          then record (ps x) { state = runnable }
          else ps x)
  unfolding wakeup1
  wakeup1_lem chan ps x = wakeup_first_lem nproc chan ps x

  -- A state and what it may be later: a sleeper may have woken up.
  abbrev pub Woken : ProcState → ProcState → Type 0
  Woken a b = (b ≡ a) ⊎ ((is_sleeping a ≡ true) × (b ≡ runnable))

  pub Woken-trans : {a b c : ProcState} → Woken a b → Woken b c → Woken a c
  Woken-trans (inl e) (inl d) = inl (d ∙ e)
  Woken-trans (inl e) (inr (s, d)) = inr (ap is_sleeping (sym e) ∙ s, d)
  Woken-trans (inr (s, e)) (inl d) = inr (s, d ∙ e)
  Woken-trans (inr (s, e)) (inr (_, d)) = inr (s, d)

  -- A process that at most woke up or was marked killed.
  pub record Mild (p q : Proc F) : Type 0 where
    pub woken : Woken p.state q.state
    pub rest : q ≡ record p { state = q.state; killed = q.killed }
    pub pid : q.pid ≡ p.pid
    pub parent : q.parent ≡ p.parent
    pub chan : q.chan ≡ p.chan
    pub master : q.master ≡ p.master
    pub zombies : is_zombie q.state ≡ is_zombie p.state
    pub sleepers : is_sleeping p.state ≡ false → is_sleeping q.state ≡ false

  pub Mild-refl : (p : Proc F) → Mild p p
  Mild-refl p = record {
    woken = inl refl;
    rest = refl;
    pid = refl;
    parent = refl;
    chan = refl;
    master = refl;
    zombies = refl;
    sleepers = λ e. e;
  }

  pub Mild-trans : {p q r : Proc F} → Mild p q → Mild q r → Mild p r
  Mild-trans {p} {q} {r} a b = record {
    woken = Woken-trans a.woken b.woken;
    rest = b.rest ∙ ap (λ (z : Proc F). record z { state = r.state; killed = r.killed }) a.rest;
    pid = b.pid ∙ a.pid;
    parent = b.parent ∙ a.parent;
    chan = b.chan ∙ a.chan;
    master = b.master ∙ a.master;
    zombies = b.zombies ∙ a.zombies;
    sleepers = λ e. b.sleepers (a.sleepers e);
  }

  Mild-woken :
      (b : Bool) (p : Proc F)
      → (b ≡ true → is_sleeping p.state ≡ true)
      → Mild p (if b then record p { state = runnable } else p)
  Mild-woken true p h =
      let s = h refl in
      record {
        woken = inr (s, refl);
        rest = refl;
        pid = refl;
        parent = refl;
        chan = refl;
        master = refl;
        zombies = ground arith;
        sleepers = λ e. refl;
      }
  Mild-woken false p h = Mild-refl p

  pub Mild-wakeup1 : (chan : ℕ) (ps : Procs F) (x : ℕ) → Mild (ps x) (wakeup1 F chan ps x)
  Mild-wakeup1 chan ps x =
      subst (Mild (ps x)) (sym (wakeup1_lem chan ps x))
        (Mild-woken (leb 1 x && leb x nproc && sleeps_on chan (ps x)) (ps x) (λ e. ground arith))

  -- Nobody in the table sleeps on the channel afterwards.
  pub wakeup1-awake :
      (chan : ℕ) (ps : Procs F) (x : ℕ)
      → 1 ≤ x
      → x ≤ nproc
      → sleeps_on chan (wakeup1 F chan ps x) ≡ false
  wakeup1-awake chan ps x a b = ground (arith, wakeup1_lem chan ps x)

  pub Mild-stays_awake :
      (chan : ℕ) (p q : Proc F) → Mild p q → sleeps_on chan p ≡ false → sleeps_on chan q ≡ false
  Mild-stays_awake chan p q h e = elim (Bool-cases (is_sleeping p.state)) [
    | inl s ↦ let c = h.chan in ground arith
    | inr s ↦ let z = h.sleepers s in ground arith
  ]

  -- A process that was handed over to `init`, if `b`, and at most woke up.
  pub record Adopted (b : Bool) (init : Ptr) (p q : Proc F) : Type 0 where
    pub woken : Woken p.state q.state
    pub rest : q ≡ record p { state = q.state; killed = q.killed; parent = q.parent }
    pub pid : q.pid ≡ p.pid
    pub parent : q.parent ≡ (if b then init else p.parent)
    pub chan : q.chan ≡ p.chan
    pub master : q.master ≡ p.master
    pub zombies : is_zombie q.state ≡ is_zombie p.state
    pub sleepers : is_sleeping p.state ≡ false → is_sleeping q.state ≡ false

  Adopted-no : (b : Bool) (init : Ptr) (p : Proc F) → b ≡ false → Adopted b init p p
  Adopted-no b init p e = record {
    woken = inl refl;
    rest = refl;
    pid = refl;
    parent = rw e refl;
    chan = refl;
    master = refl;
    zombies = refl;
    sleepers = λ s. s;
  }

  Adopted-put :
      (b : Bool) (init x i : Ptr) (ps : Procs F)
      → b ≡ (x == i)
      → Adopted b init (ps x) (update ps i (record (ps i) { parent = init }) x)
  Adopted-put b init x i ps e = record {
    woken = inl (ground arith);
    rest = ground arith;
    pid = ground arith;
    parent = ground arith;
    chan = ground arith;
    master = ground arith;
    zombies = ground arith;
    sleepers = λ s. ground arith;
  }

  pub Adopted-Mild :
      {b : Bool} {init : Ptr} {p q r : Proc F} → Adopted b init p q → Mild q r → Adopted b init p r
  Adopted-Mild {b} {init} {p} {q} {r} a h = record {
    woken = Woken-trans a.woken h.woken;
    rest =
        h.rest
        ∙ ap (λ (z : Proc F). record z { state = r.state; killed = r.killed }) a.rest
        ∙ ap (λ z. record p { state = r.state; killed = r.killed; parent = z }) (sym h.parent);
    pid = h.pid ∙ a.pid;
    parent = h.parent ∙ a.parent;
    chan = h.chan ∙ a.chan;
    master = h.master ∙ a.master;
    zombies = h.zombies ∙ a.zombies;
    sleepers = λ e. h.sleepers (a.sleepers e);
  }

  pub Adopted-trans :
      (b c d : Bool) (init : Ptr) (p q r : Proc F)
      → Adopted b init p q
      → Adopted c init q r
      → (if c then init else if b then init else p.parent) ≡ (if d then init else p.parent)
      → Adopted d init p r
  Adopted-trans b c d init p q r x y e = record {
    woken = Woken-trans x.woken y.woken;
    rest =
        y.rest
        ∙ ap (λ (z : Proc F). record z { state = r.state; killed = r.killed; parent = r.parent })
            x.rest;
    pid = y.pid ∙ x.pid;
    parent = y.parent ∙ ap (λ z. if c then init else z) x.parent ∙ e;
    chan = y.chan ∙ x.chan;
    master = y.master ∙ x.master;
    zombies = y.zombies ∙ x.zombies;
    sleepers = λ s. y.sleepers (x.sleepers s);
  }

  -- One round of the loop that hands the children of `me` over.
  abbrev reparent_step : ℕ → Ptr → Ptr → Procs F → Procs F
  reparent_step i me init qs =
      let rs = update qs i (record (qs i) { parent = init }) in
      if (qs i).parent == me then if is_zombie (qs i).state then wakeup1 F init rs else rs else qs

  Adopted-step :
      (i me init : ℕ) (qs : Procs F) (x : ℕ)
      → Adopted ((x == i) && (qs i).parent == me) init (qs x) (reparent_step i me init qs x)
  Adopted-step i me init qs x = elim (Bool-cases ((qs i).parent == me)) [
    | inr e ↦ rw e (Adopted-no _ init (qs x) (ground arith))
    | inl e ↦
        let a : Adopted ((x == i) && true) init (qs x)
            (update qs i (record (qs i) { parent = init }) x) =
          Adopted-put _ init x i qs (ground arith) in
        elim (Bool-cases (is_zombie (qs i).state)) [
          | inl z ↦
              rw (e, z)
                (Adopted-Mild a
                  (Mild-wakeup1 init (update qs i (record (qs i) { parent = init })) x))
          | inr z ↦ rw (e, z) a
        ]
  ]

  pub reparent-Adopted :
      (k me init : ℕ) (ps : Procs F) (x : ℕ)
      → Adopted (leb 1 x && leb x k && (ps x).parent == me) init (ps x) (reparent F k me init ps x)
  unfolding reparent
  reparent-Adopted zero me init ps x = Adopted-no _ init (ps x) (ground arith)
  reparent-Adopted (suc k) me init ps x =
      let qs = reparent F k me init ps in
      let a = reparent-Adopted k me init ps x in
      Adopted-trans _ _ _ init (ps x) (qs x) _ a (Adopted-step (suc k) me init qs x)
        (joined (reparent-Adopted k me init ps (suc k)).parent (Bool-cases (x == suc k)))
    where
      joined :
          (reparent F k me init ps (suc k)).parent ≡ (
            if leb 1 (suc k) && leb (suc k) k && (ps (suc k)).parent == me
            then init
            else (ps (suc k)).parent)
          → ((x == suc k) ≡ true) ⊎ ((x == suc k) ≡ false)
          → (if (x == suc k) && (reparent F k me init ps (suc k)).parent == me
              then init
              else if leb 1 x && leb x k && (ps x).parent == me
              then init
              else (ps x).parent)
            ≡ (if leb 1 x && leb x (suc k) && (ps x).parent == me then init else (ps x).parent)
      joined b (inl e) = let same : x ≡ suc k = ground arith in rw same (ground arith)
      joined b (inr e) = ground arith

  -- A zombie that is handed over wakes who sleeps on `init`.
  pub reparent-awake :
      (k me init : ℕ) (ps : Procs F) (x y : ℕ)
      → 1 ≤ x
      → x ≤ k
      → (ps x).parent ≡ me
      → is_zombie (ps x).state ≡ true
      → 1 ≤ y
      → y ≤ nproc
      → sleeps_on init (reparent F k me init ps y) ≡ false
  unfolding reparent
  reparent-awake zero me init ps x y lo hi pa z a b = absurd (omega arith)
  reparent-awake (suc k) me init ps x y lo hi pa z a b = elim (Bool-cases (x == suc k)) [
    | inl e ↦
        let same : x ≡ suc k = ground arith in
        let h = reparent-Adopted k me init ps (suc k) in
        let zq : is_zombie (reparent F k me init ps (suc k)).state ≡ true =
          h.zombies ∙ (rw same at z) in
        let pq : ((reparent F k me init ps (suc k)).parent == me) ≡ true =
          let pb = h.parent in ground arith in
        rw (pq, zq)
          (wakeup1-awake init
            (update (reparent F k me init ps) (suc k)
              (record (reparent F k me init ps (suc k)) { parent = init }))
            y a b)
    | inr e ↦
        let ih = reparent-awake k me init ps x y lo (ground arith) pa z a b in
        stays (Adopted-step (suc k) me init (reparent F k me init ps) y) ih
  ]
    where
      stays :
          {c : Bool} {p q : Proc F}
          → Adopted c init p q
          → sleeps_on init p ≡ false
          → sleeps_on init q ≡ false
      stays {c} {p} {q} h e = elim (Bool-cases (is_sleeping p.state)) [
        | inl s ↦ let g = h.chan in ground arith
        | inr s ↦ let g = h.sleepers s in ground arith
      ]

  -- Who is killed does not change.
  pub wakeup1-killed :
      (chan : ℕ) (ps : Procs F) (x : ℕ) → (wakeup1 F chan ps x).killed ≡ (ps x).killed
  wakeup1-killed chan ps x = ground (arith, wakeup1_lem chan ps x)

  pub reparent-killed :
      (k me init : ℕ) (ps : Procs F) (x : ℕ) → (reparent F k me init ps x).killed ≡ (ps x).killed
  unfolding reparent
  reparent-killed zero me init ps x = refl
  reparent-killed (suc k) me init ps x =
      let qs = reparent F k me init ps in
      let rs = update qs (suc k) (record (qs (suc k)) { parent = init }) in
      let ih = reparent-killed k me init ps x in
      elim (Bool-cases ((qs (suc k)).parent == me)) [
        | inr e ↦ rw e ih
        | inl e ↦
            let same : (rs x).killed ≡ (qs x).killed = ground arith in
            elim (Bool-cases (is_zombie (qs (suc k)).state)) [
              | inl z ↦ rw (e, z) (wakeup1-killed init rs x ∙ same ∙ ih)
              | inr z ↦ rw (e, z) (same ∙ ih)
            ]
      ]
