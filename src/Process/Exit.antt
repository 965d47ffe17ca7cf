-- ===== src/Process/Exit.antt =====
-- What `exit` leaves behind, and that the parent's `wait` then succeeds.
use hyu_ele.Prelude.{
  ℕ, ◌≡◌, ◌≢◌, ◌≤◌, inl, inr, refl, sym, ap, subst, ◌∙◌, arith, Bool, true, false, not, ◌||◌, ◌&&◌,
  ◌==◌, leb, if◌then◌else◌, Bool-cases,
}
use hyu_ele.Prelude.Maps.{update}
use hyu_ele.Mlfq.{Ptr, null, nproc}
use hyu_ele.Sched.State.{Double, zombie, Proc, Procs, is_sleeping, get_highest_master}
use hyu_ele.Process.{is_zombie, Machine, procs, wakeup1, reparent, exit_finish}
use hyu_ele.Process.Wake.{
  sleeps_on, Mild, Mild-refl, Mild-trans, Woken-trans, wakeup1-killed, reparent-killed,
  Mild-wakeup1, Mild-stays_awake, wakeup1-awake, Adopted, reparent-Adopted, reparent-awake,
}

module _ (F : Double) where
  Mild-killed :
      (top : Ptr) (ps : Procs F) (x : ℕ)
      → Mild F (ps x) (update ps top (record (ps top) { killed = true }) x)
  Mild-killed top ps x = record {
    woken = inl (ground arith);
    rest = ground arith;
    pid = ground arith;
    parent = ground arith;
    chan = ground arith;
    master = ground arith;
    zombies = ground arith;
    sleepers = λ s. ground arith;
  }

  module _ (me : Ptr) (m : Machine F) where
    abbrev ps : Procs F
    ps = procs F m

    abbrev top : Ptr
    top = get_highest_master F me ps

    -- The table after the call for the parent, and after the one for the master.
    abbrev told_parent : Procs F
    told_parent = if (ps me).parent == null then ps else wakeup1 F (ps me).parent ps

    abbrev told_master : Procs F
    told_master =
        if (told_parent me).master == null
        then told_parent
        else wakeup1 F top (
            if (told_parent me).killed
            then told_parent
            else update told_parent top (record (told_parent top) { killed = true }))

    parent-Mild : (x : ℕ) → Mild F (ps x) (told_parent x)
    parent-Mild x = elim (Bool-cases ((ps me).parent == null)) [
      | inl e ↦ rw e (Mild-refl F (ps x))
      | inr e ↦ rw e (Mild-wakeup1 F (ps me).parent ps x)
    ]

    master-Mild : (x : ℕ) → Mild F (told_parent x) (told_master x)
    master-Mild x = elim (Bool-cases ((told_parent me).master == null)) [
      | inl e ↦ rw e (Mild-refl F (told_parent x))
      | inr e ↦ elim (Bool-cases (told_parent me).killed) [
        | inl k ↦ rw (e, k) (Mild-wakeup1 F top told_parent x)
        | inr k ↦
            rw (e, k)
              (Mild-trans F (Mild-killed top told_parent x) (
                Mild-wakeup1 F top
                  (update told_parent top (record (told_parent top) { killed = true })) x))
      ]
    ]

    told-Mild : (x : ℕ) → Mild F (ps x) (told_master x)
    told-Mild x = Mild-trans F (parent-Mild x) (master-Mild x)

    abbrev after : Procs F
    after = procs F (exit_finish F me m)

    abbrev handed : Procs F
    handed = reparent F nproc me m.initproc told_master

    exit_finish-other : (x : ℕ) → x ≢ me → after x ≡ handed x
    unfolding exit_finish
    exit_finish-other x ne = let e : (x == me) ≡ false = ground arith in rw e refl

    exit_finish_self : after me ≡ record (handed me) { state = zombie }
    unfolding exit_finish
    exit_finish_self = let e : (me == me) ≡ true = ground arith in rw e refl

    handed-Adopted :
        (x : ℕ)
        → Adopted F (leb 1 x && leb x nproc && (ps x).parent == me) m.initproc (ps x) (handed x)
    handed-Adopted x =
        let h = told-Mild x in
        let a = reparent-Adopted F nproc me m.initproc told_master x in
        let p = h.parent in
        record {
          woken = Woken-trans F h.woken a.woken;
          rest =
              a.rest
              ∙ ap
                  (λ (z : Proc F). record z {
                    state = (handed x).state;
                    killed = (handed x).killed;
                    parent = (handed x).parent;
                  })
                  h.rest;
          pid = a.pid ∙ h.pid;
          parent =
              a.parent ∙ ap (λ z. if leb 1 x && leb x nproc && z == me then m.initproc else z) p;
          chan = a.chan ∙ h.chan;
          master = a.master ∙ h.master;
          zombies = a.zombies ∙ h.zombies;
          sleepers = λ s. a.sleepers (h.sleepers s);
        }

    -- Whether `exit` marks the entry as killed.
    abbrev marks : Ptr → Bool
    marks x = (x == top) && not ((ps me).master == null) && not (ps me).killed

    told_parent-killed : (x : ℕ) → (told_parent x).killed ≡ (ps x).killed
    told_parent-killed x = elim (Bool-cases ((ps me).parent == null)) [
      | inl e ↦ rw e refl
      | inr e ↦ rw e (wakeup1-killed F (ps me).parent ps x)
    ]

    told_master-killed : (x : ℕ) → (told_master x).killed ≡ ((ps x).killed || marks x)
    told_master-killed x =
        let q = told_parent-killed x in
        let own = told_parent-killed me in
        let h = (parent-Mild me).master in
        elim (Bool-cases ((told_parent me).master == null)) [
          | inl e ↦ rw e (ground (arith, q, h))
          | inr e ↦ elim (Bool-cases (told_parent me).killed) [
            | inl k ↦ rw (e, k) (wakeup1-killed F top told_parent x ∙ ground (arith, q, own))
            | inr k ↦
                let marked = update told_parent top (record (told_parent top) { killed = true }) in
                rw (e, k) (wakeup1-killed F top marked x ∙ ground (arith, q, own, h))
          ]
        ]

    handed-killed : (x : ℕ) → (handed x).killed ≡ ((ps x).killed || marks x)
    handed-killed x = reparent-killed F nproc me m.initproc told_master x ∙ told_master-killed x

    -- The table after `exit`.
    pub record Exited : Type 0 where
      pub is_gone : (after me).state ≡ zombie
      pub same_entry : after me ≡ record (ps me) {
        state = zombie;
        killed = (after me).killed;
        parent = (after me).parent;
      }
      pub killed : (x : ℕ) → (after x).killed ≡ ((ps x).killed || marks x)
      pub same_parent : (ps me).parent ≢ me → (after me).parent ≡ (ps me).parent
      pub others :
          (x : ℕ)
          → x ≢ me
          → Adopted F (leb 1 x && leb x nproc && (ps x).parent == me) m.initproc (ps x) (after x)
      pub parent_awake :
          (ps me).parent ≢ null
          → (x : ℕ) → x ≢ me
          → 1 ≤ x
          → x ≤ nproc
          → sleeps_on F (ps me).parent (after x) ≡ false
      pub master_awake :
          (ps me).master ≢ null
          → (x : ℕ) → x ≢ me
          → 1 ≤ x
          → x ≤ nproc
          → sleeps_on F top (after x) ≡ false
      pub init_awake :
          (z : ℕ)
          → 1 ≤ z
          → z ≤ nproc
          → (ps z).parent ≡ me
          → is_zombie (ps z).state ≡ true
          → (x : ℕ) → x ≢ me
          → 1 ≤ x
          → x ≤ nproc
          → sleeps_on F m.initproc (after x) ≡ false

    Adopted-stays :
        (chan : ℕ) {c : Bool} {i : Ptr} {p q : Proc F}
        → Adopted F c i p q
        → sleeps_on F chan p ≡ false
        → sleeps_on F chan q ≡ false
    Adopted-stays chan {c} {i} {p} {q} h e = elim (Bool-cases (is_sleeping p.state)) [
      | inl s ↦ let g = h.chan in ground arith
      | inr s ↦ let g = h.sleepers s in ground arith
    ]

    told_parent-awake :
        (ps me).parent ≢ null
        → (x : ℕ) → 1 ≤ x
        → x ≤ nproc
        → sleeps_on F (ps me).parent (told_parent x) ≡ false
    told_parent-awake n x a b =
        let e : ((ps me).parent == null) ≡ false = ground arith in
        rw e (wakeup1-awake F (ps me).parent ps x a b)

    told_master-awake :
        (ps me).master ≢ null
        → (x : ℕ) → 1 ≤ x
        → x ≤ nproc
        → sleeps_on F top (told_master x) ≡ false
    told_master-awake n x a b =
        let h = (parent-Mild me).master in
        let e : ((told_parent me).master == null) ≡ false = ground arith in
        rw e (wakeup1-awake F top _ x a b)

    -- `exit` of a process or thread from its second lock of the table on: it becomes a zombie, and its
    -- children belong to `initproc`. A thread that was not killed marks its highest master as killed, and
    -- no other `killed` flag changes. Sleepers may have been woken up; all else in the table is as
    -- before. Nobody sleeps on the parent or, for a thread, on the highest master, and nobody on
    -- `initproc` if one of the children was a zombie.
    pub exit_finish_lem : Exited
    exit_finish_lem = record {
      is_gone = ap (λ (q : Proc F). q.state) exit_finish_self;
      same_entry =
          exit_finish_self
          ∙ ap
              (λ (q : Proc F). record q {
                state = zombie;
                killed = (handed me).killed;
                parent = (handed me).parent;
              })
              (handed-Adopted me).rest
          ∙ ap
              (λ (q : Proc F). record (ps me) {
                state = zombie;
                killed = q.killed;
                parent = q.parent;
              })
              (sym exit_finish_self);
      killed = λ x. elim (Bool-cases (x == me)) [
        | inl e ↦
            let same : x ≡ me = ground arith in
            rw same (ap (λ (q : Proc F). q.killed) exit_finish_self ∙ handed-killed me)
        | inr e ↦
            ap (λ (q : Proc F). q.killed) (exit_finish-other x (λ q. ground arith))
            ∙ handed-killed x
      ];
      same_parent = λ n.
          let h = (handed-Adopted me).parent in
          ap (λ (q : Proc F). q.parent) exit_finish_self
          ∙ h
          ∙ (let e : (leb 1 me && leb me nproc && (ps me).parent == me) ≡ false = ground arith in
              rw e refl);
      others = λ x n.
          subst (Adopted F _ m.initproc (ps x)) (sym (exit_finish-other x n)) (handed-Adopted x);
      parent_awake = λ n x ne a b.
          subst (λ q. sleeps_on F (ps me).parent q ≡ false) (sym (exit_finish-other x ne))
            (Adopted-stays (ps me).parent (reparent-Adopted F nproc me m.initproc told_master x) (
              Mild-stays_awake F (ps me).parent (told_parent x) (told_master x) (master-Mild x)
                (told_parent-awake n x a b)));
      master_awake = λ n x ne a b.
          subst (λ q. sleeps_on F top q ≡ false) (sym (exit_finish-other x ne))
            (Adopted-stays top (reparent-Adopted F nproc me m.initproc told_master x)
              (told_master-awake n x a b));
      init_awake = λ z lo hi pa zo x ne a b.
          subst (λ q. sleeps_on F m.initproc q ≡ false) (sym (exit_finish-other x ne))
            (reparent-awake F nproc me m.initproc told_master z x lo hi ((told-Mild z).parent ∙ pa)
              ((told-Mild z).zombies ∙ zo) a b);
    }
