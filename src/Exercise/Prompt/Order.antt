-- ===== src/Exercise/Prompt/Order.antt =====
-- What holds in the runs of exercise-xenomai/multitask.c.b.c: the tasks are one behind the other.
use edfomai.Base.{
  ℕ, zero, suc, ◌≤◌, ◌<◌, ◌≡◌, refl, sym, ap, subst, ◌∙◌, true, false, Option, none, some, List, [],
  ◌∷◌, inl, inr, arith, ltb, length, get_elem?, get_or, set, Bool-cases, Option-cases, length-set,
}
use edfomai.Tasks.{moved}
use edfomai.Exercise.Multitask.Cells.{
  get_elem?-replicate, get_elem?-set, get_elem?-set_self, get_elem?-some, get_or-set,
}
use edfomai.Exercise.Prompt.{
  DemoPc, demo_off, demo_started, demo_inquired, demo_read, demo_ended, MainPc, main_top,
  main_named, main_created, main_started, main_returned, Line, failed, says, Prompt, begun, goto,
  live, quiet, main, returned, Actor, spawns, demos, demo, running, prompt_step,
}

-- The tasks of the earlier rounds have ended, and those of the later rounds are not started.
pub record Rows (names : List ℕ) (tasks : List DemoPc) (i : ℕ) : Type 0 where
  pub five : length tasks ≡ 5
  pub named : length names ≡ 5
  pub before : (k : ℕ) → k < i → (pc : DemoPc) → get_elem? tasks k ≡ some pc → pc ≡ demo_ended
  pub behind : (k : ℕ) → i < k → (pc : DemoPc) → get_elem? tasks k ≡ some pc → pc ≡ demo_off

Rows-set :
    (names : List ℕ) (tasks : List DemoPc) (i : ℕ) (pc : DemoPc)
    → Rows names tasks i
    → Rows names (set tasks i pc) i
Rows-set names tasks i pc v = record {
  five = length-set tasks i pc ∙ v.five;
  named = v.named;
  before = λ k less w e. elim (get_elem?-set tasks i k pc w e) [
    | inl (same, new) ↦ absurd (omega arith)
    | inr old ↦ v.before k less w old
  ];
  behind = λ k more w e. elim (get_elem?-set tasks i k pc w e) [
    | inl (same, new) ↦ absurd (omega arith)
    | inr old ↦ v.behind k more w old
  ];
}

pub Rows-suc :
    (names : List ℕ) (tasks : List DemoPc) (i : ℕ)
    → get_elem? tasks i ≡ some demo_ended
    → Rows names tasks i
    → Rows names tasks (suc i)
Rows-suc names tasks i last v = record {
  five = v.five;
  named = v.named;
  before = λ k less w e. elim (Bool-cases (ltb k i)) [
    | inl past ↦ v.before k (ground arith) w e
    | inr from ↦ let same : k ≡ i = ground arith in let e' = rw same at e in cc
  ];
  behind = λ k more w e. v.behind k (omega arith) w e;
}

pub quiet-live :
    (tasks : List DemoPc) (k : ℕ) (pc : DemoPc)
    → quiet tasks ≡ true
    → get_elem? tasks k ≡ some pc
    → live pc ≡ false
quiet-live [] k pc q e = cc
quiet-live (x ∷ rest) zero pc q e = elim (Bool-cases (live x)) [
  | inl on ↦ absurd (let q' = rw on at q in cc)
  | inr off ↦ let same : x ≡ pc = cc in subst (λ w. live w ≡ false) same off
]
quiet-live (x ∷ rest) (suc k) pc q e = elim (Bool-cases (live x)) [
  | inl on ↦ absurd (let q' = rw on at q in cc)
  | inr off ↦ quiet-live rest k pc (rw off at q) e
]

module _ (refuses : ℕ → Option ℕ) where
  -- What task k is to print: its own name and its own number, or its error.
  abbrev pub line_of : ℕ → Line
  line_of k = elim (refuses k) [ none ↦ says k k | some n ↦ failed n ]

  abbrev pub lines : ℕ → List Line
  lines zero = []
  lines (suc n) = line_of n ∷ lines n

  -- What the task of this round knows, and what is printed while it stands at pc.
  abbrev pub At : Prompt → DemoPc → Type 0
  At s demo_off = 1 ≤ 0
  At s demo_started = (get_or s.names s.i 0 ≡ s.i) × (s.out ≡ lines s.i)
  At s (demo_inquired name) = (refuses s.i ≡ none) × (name ≡ s.i) × (s.out ≡ lines s.i)
  At s (demo_read name v) = (refuses s.i ≡ none) × (name ≡ s.i) × (v ≡ s.i) × (s.out ≡ lines s.i)
  At s demo_ended = s.out ≡ lines (suc s.i)

  abbrev pub Off : Prompt → Type 0
  Off s = (s.out ≡ lines s.i) × ((pc : DemoPc) → get_elem? s.tasks s.i ≡ some pc → pc ≡ demo_off)

  abbrev pub Here : Prompt → MainPc → Type 0
  Here s main_top = (s.i ≤ 5) × Off s
  Here s main_named = (s.i < 5) × (s.str ≡ s.i) × Off s
  Here s main_created = (s.i < 5) × (s.demo_task ≡ s.i) × (get_or s.names s.i 0 ≡ s.i) × Off s
  Here s main_started = (s.i < 5) × (pc : DemoPc) × (get_elem? s.tasks s.i ≡ some pc) × At s pc
  Here s main_returned = s.out ≡ lines 5

  abbrev pub Inv : Prompt → Type 0
  Inv s = Rows s.names s.tasks s.i × Here s s.main_pc

  -- Only the task of this round is running, and only while main() is behind its start.
  live-turn :
      (mpc : MainPc) (k : ℕ) (pc : DemoPc) (s : Prompt)
      → s.main_pc ≡ mpc
      → returned mpc ≡ false
      → get_elem? s.tasks k ≡ some pc
      → live pc ≡ true
      → Inv s
      → (s.main_pc ≡ main_started) × (s.i < 5) × (k ≡ s.i) × At s pc
  live-turn mpc k pc s here on h lives v = elim (Bool-cases (ltb k s.i)) [
    | inl less ↦
        let over = v.0.before k (ground arith) pc h in absurd (let l = rw over at lives in cc)
    | inr from ↦ elim (Bool-cases (ltb s.i k)) [
      | inl more ↦
          let off = v.0.behind k (ground arith) pc h in absurd (let l = rw off at lives in cc)
      | inr upto ↦
          let same : k ≡ s.i = ground arith in turn mpc here on same (subst (Here s) here v.1)
    ]
  ]
    where
      not_off : pc ≡ demo_off → ⊥
      not_off off = let l = rw off at lives in cc

      turn :
          (mpc : MainPc)
          → s.main_pc ≡ mpc
          → returned mpc ≡ false
          → k ≡ s.i
          → Here s mpc
          → (s.main_pc ≡ main_started) × (s.i < 5) × (k ≡ s.i) × At s pc
      turn main_top at on same (_, (_, off)) = absurd (not_off (off pc (rw same at h)))
      turn main_named at on same (_, _, (_, off)) = absurd (not_off (off pc (rw same at h)))
      turn main_created at on same (_, _, _, (_, off)) = absurd (not_off (off pc (rw same at h)))
      turn main_started at on same (small, w, e, here) =
          let eq : w ≡ pc = (let h' = rw same at h in cc) in (at, small, same, subst (At s) eq here)
      turn main_returned at on same here = cc

  goto-Inv :
      (pc pc' : DemoPc) (out : List Line) (s : Prompt)
      → s.main_pc ≡ main_started
      → s.i < 5
      → get_elem? s.tasks s.i ≡ some pc
      → At (record s { out = out }) pc'
      → Rows s.names s.tasks s.i
      → Inv (goto s.i pc' (record s { out = out }))
  goto-Inv pc pc' out s at small h knows rows = (
    Rows-set s.names s.tasks s.i pc' rows,
    subst (Here (goto s.i pc' (record s { out = out }))) (sym at)
        (small, pc', get_elem?-set_self s.tasks s.i pc' pc h, knows),
  )

  demo-Inv :
      (k : ℕ) (pc : DemoPc) (s t : Prompt)
      → returned s.main_pc ≡ false
      → get_elem? s.tasks k ≡ some pc
      → demo refuses k pc s ≡ some t
      → Inv s
      → Inv t
  unfolding demo
  demo-Inv k demo_off s t on h e v = cc
  demo-Inv k demo_started s t on h e v =
      let (at, small, same, (named, told)) = live-turn s.main_pc k _ s refl on h refl v in
      let h' = rw same at h in
      elim (Option-cases (refuses s.i)) [
        | inl fine ↦
            moved Inv (rw (same, demo, fine, same, named) at e)
              (goto-Inv _ (demo_inquired s.i) s.out s at small h' (fine, refl, told) v.0)
        | inr (n, bad) ↦
            moved Inv (rw (same, demo, bad, same) at e)
              (goto-Inv _ demo_ended (failed n ∷ s.out) s at small h' (rw (told, line_of, bad)) v.0)
      ]
  demo-Inv k (demo_inquired name) s t on h e v =
      let (at, small, same, (fine, named, told)) = live-turn s.main_pc k _ s refl on h refl v in
      moved Inv (rw same at e) (
        goto-Inv _ (demo_read name s.i) s.out s at small (rw same at h) (fine, named, refl, told)
          v.0)
  demo-Inv k (demo_read name w) s t on h e v =
      let (at, small, same, (fine, named, read, told)) =
        live-turn s.main_pc k _ s refl on h refl v in
      moved Inv (rw same at e) (
        goto-Inv _ demo_ended (says name w ∷ s.out) s at small (rw same at h)
          (rw (told, line_of, fine, named, read)) v.0)
  demo-Inv k demo_ended s t on h e v = cc

  -- What the task of this round has done when it does not run any more.
  pub At-ended :
      (s : Prompt) (pc : DemoPc)
      → live pc ≡ false
      → At s pc
      → (pc ≡ demo_ended) × (s.out ≡ lines (suc s.i))
  At-ended s demo_off l knows = absurd (omega arith)
  At-ended s demo_started l knows = cc
  At-ended s (demo_inquired name) l knows = cc
  At-ended s (demo_read name w) l knows = cc
  At-ended s demo_ended l knows = (refl, knows)

  main-Inv :
      (pc : MainPc) (s t : Prompt)
      → s.main_pc ≡ pc
      → quiet s.tasks ≡ true
      → main pc s ≡ some t
      → Inv s
      → Inv t
  unfolding main
  main-Inv main_top s t at still e (rows, v) =
      let (small, off) = subst (Here s) at v in
      elim (Bool-cases (ltb s.i 5)) [
        | inl more ↦ moved Inv (rw more at e) (rows, (ground arith, refl, off))
        | inr over ↦
            let all : s.i ≡ 5 = ground arith in
            moved Inv (rw over at e) (rows, subst (λ n. s.out ≡ lines n) all off.0)
      ]
  main-Inv main_named s t at still e (rows, v) =
      let (small, told, off) = subst (Here s) at v in
      let here : s.i < length s.names = omega (arith, rows.named) in
      moved Inv e (
        record {
          five = rows.five;
          named = length-set s.names s.i s.str ∙ rows.named;
          before = rows.before;
          behind = rows.behind;
        },
        (small, refl, get_or-set s.names s.i s.str 0 here ∙ told, off),
      )
  main-Inv main_created s t at still e (rows, v) =
      let (small, handle, told, (out, off)) = subst (Here s) at v in
      let (pc, h) = get_elem?-some s.tasks s.i (omega (arith, rows.five)) in
      moved Inv (rw handle at e) (
        goto-Inv pc demo_started s.out (record s { main_pc = main_started }) refl small h
          (told, out) rows)
  main-Inv main_started s t at still e (rows, v) =
      let (small, pc, h, knows) = subst (Here s) at v in
      let (over, told) = At-ended s pc (quiet-live s.tasks s.i pc still h) knows in
      moved Inv e (
        Rows-suc s.names s.tasks s.i (h ∙ ap some over) rows,
        (omega arith, (told, λ w e'. rows.behind (suc s.i) (omega arith) w e')),
      )
  main-Inv main_returned s t at still e v = cc

  running-Inv :
      (a : Actor) (s t : Prompt)
      → returned s.main_pc ≡ false
      → running refuses a s ≡ some t
      → Inv s
      → Inv t
  unfolding running
  running-Inv spawns s t on e v = elim (Bool-cases (quiet s.tasks)) [
    | inl still ↦ main-Inv s.main_pc s t refl still (rw still at e) v
    | inr busy ↦ let e' = rw busy at e in cc
  ]
  running-Inv (demos k) s t on e v = elim (Option-cases (get_elem? s.tasks k)) [
    | inl gone ↦ let e' = rw (running, gone) at e in cc
    | inr (pc, h) ↦ demo-Inv k pc s t on h (rw (running, h) at e) v
  ]

  pub step-Inv : (a : Actor) (s t : Prompt) → prompt_step refuses a s ≡ some t → Inv s → Inv t
  unfolding prompt_step
  step-Inv a s t e v = elim (Bool-cases (returned s.main_pc)) [
    | inl over ↦ let e' = rw over at e in cc
    | inr on ↦ running-Inv a s t on (rw on at e) v
  ]

  pub begun-Inv : (str : ℕ) → Inv (begun str)
  begun-Inv str = (
    record {
      five = refl;
      named = refl;
      before = λ k less pc e. absurd (omega arith);
      behind = λ k more pc e. get_elem?-replicate 5 k demo_off pc e;
    },
    (omega arith, (refl, λ pc e. get_elem?-replicate 5 0 demo_off pc e)),
  )
