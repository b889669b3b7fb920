-- ===== src/Exercise/Names/Own.antt =====
-- What the tasks of exercise-xenomai/multitask.c.a.c print.
use edfomai.Base.{
  ℕ, ◌<◌, ◌≡◌, refl, ◌∙◌, Option, some, List, [], ◌∷◌, inl, inr, arith, ltb, length, get_elem?,
  get_or, set, Bool-cases, Option-cases, length-set,
}
use edfomai.Tasks.{moved, Reached, Reached_ind}
use edfomai.Exercise.Multitask.Cells.{
  get_elem?-replicate, get_elem?-set, get_or-set, get_or-set_other,
}
use edfomai.Exercise.Prompt.{
  MainPc, main_top, main_named, main_created, main_started, main_returned, returned, Actor, spawns,
  demos,
}
use edfomai.Exercise.Names.{
  DemoPc, demo_off, demo_started, demo_inquired, demo_ended, Text, inquiring_error, task_name, Line,
  Names, begun, prints, main, demo, running, names_step,
}

-- What task k knows, and what it has printed.
abbrev OwnPc : List ℕ → ℕ → DemoPc → Type 0
OwnPc names k demo_off = Unit
OwnPc names k demo_started = get_or names k 0 ≡ k
OwnPc names k (demo_inquired name) = name ≡ k
OwnPc names k demo_ended = Unit

abbrev OwnText : ℕ → Text → Type 0
OwnText k (inquiring_error n) = Unit
OwnText k (task_name name) = name ≡ k

abbrev pub OwnLines : List Line → Type 0
OwnLines [] = Unit
OwnLines (line ∷ rest) = OwnText line.task line.text × OwnLines rest

abbrev Here : Names → MainPc → Type 0
Here s main_named = (s.i < 5) × (s.str ≡ s.i)
Here s main_created = get_or s.names s.demo_task 0 ≡ s.demo_task
Here s _ = Unit

record Inv (s : Names) : Type 0 where
  five : length s.names ≡ 5
  own : (k : ℕ) (pc : DemoPc) → get_elem? s.tasks k ≡ some pc → OwnPc s.names k pc
  here : Here s s.main_pc
  texts : OwnLines s.out

-- Where task j stands after a step of task k, or of main(), that moves task k.
moved_own :
    (k : ℕ) (pc : DemoPc) (s : Names)
    → OwnPc s.names k pc
    → Inv s
    → (j : ℕ) (w : DemoPc) → get_elem? (set s.tasks k pc) j ≡ some w
    → OwnPc s.names j w
moved_own k pc s knows v j w e = elim (get_elem?-set s.tasks k j pc w e) [
  | inl (same, new) ↦ rw (same, new) knows
  | inr old ↦ v.own j w old
]

-- The kernel's copy of the buffer in round i leaves what the tasks know.
copied_own :
    (i k : ℕ) (pc : DemoPc) (names : List ℕ)
    → i < length names
    → OwnPc names k pc
    → OwnPc (set names i i) k pc
copied_own i k demo_off names h knows = tt
copied_own i k demo_started names h knows = elim (get_or-set_other names i k i 0) [
  | inl same ↦ same ∙ knows
  | inr (here, less) ↦ rw here (get_or-set names i i 0 h)
]
copied_own i k (demo_inquired name) names h knows = knows
copied_own i k demo_ended names h knows = tt

main-Inv : (pc : MainPc) (s t : Names) → s.main_pc ≡ pc → main pc s ≡ some t → Inv s → Inv t
unfolding main
main-Inv main_top s t at e v = elim (Bool-cases (ltb s.i 5)) [
  | inl more ↦
      moved Inv (rw more at e)
        (record { five = v.five; own = v.own; here = (ground arith, refl); texts = v.texts })
  | inr over ↦
      moved Inv (rw over at e) (record { five = v.five; own = v.own; here = tt; texts = v.texts })
]
main-Inv main_named s t at e v =
    let (small, told) = rw at at v.here in
    let less : s.i < length s.names = omega (arith, v.five) in
    moved Inv (rw told at e) (record {
      five = length-set s.names s.i s.i ∙ v.five;
      own = λ k pc h. copied_own s.i k pc s.names less (v.own k pc h);
      here = get_or-set s.names s.i s.i 0 less;
      texts = v.texts;
    })
main-Inv main_created s t at e v = moved Inv e (record {
  five = v.five;
  own = moved_own s.demo_task demo_started s (rw at at v.here) v;
  here = tt;
  texts = v.texts;
})
main-Inv main_started s t at e v =
    moved Inv e (record { five = v.five; own = v.own; here = tt; texts = v.texts })
main-Inv main_returned s t at e v = cc

module _ (refuses : ℕ → Option ℕ) where
  prints-Inv : (k : ℕ) (text : Text) (s : Names) → OwnText k text → Inv s → Inv (prints k text s)
  prints-Inv k text s own v = record {
    five = v.five;
    own = moved_own k demo_ended s tt v;
    here = v.here;
    texts = (own, v.texts);
  }

  demo-Inv :
      (k : ℕ) (pc : DemoPc) (s t : Names)
      → get_elem? s.tasks k ≡ some pc
      → demo refuses k pc s ≡ some t
      → Inv s
      → Inv t
  unfolding demo
  demo-Inv k demo_off s t h e v = cc
  demo-Inv k demo_started s t h e v = elim (Option-cases (refuses k)) [
    | inl fine ↦ moved Inv (rw (demo, fine) at e) (record {
      five = v.five;
      own = moved_own k (demo_inquired (get_or s.names k 0)) s (v.own k _ h) v;
      here = v.here;
      texts = v.texts;
    })
    | inr (n, bad) ↦ moved Inv (rw (demo, bad) at e) (prints-Inv k (inquiring_error n) s tt v)
  ]
  demo-Inv k (demo_inquired name) s t h e v =
      moved Inv e (prints-Inv k (task_name name) s (v.own k _ h) v)
  demo-Inv k demo_ended s t h e v = cc

  running-Inv : (a : Actor) (s t : Names) → running refuses a s ≡ some t → Inv s → Inv t
  unfolding running
  running-Inv spawns s t e v = main-Inv s.main_pc s t refl e v
  running-Inv (demos k) s t e v = elim (Option-cases (get_elem? s.tasks k)) [
    | inl gone ↦ let e' = rw (running, gone) at e in cc
    | inr (pc, h) ↦ demo-Inv k pc s t h (rw (running, h) at e) v
  ]

  step-Inv : (a : Actor) (s t : Names) → names_step refuses a s ≡ some t → Inv s → Inv t
  unfolding names_step
  step-Inv a s t e v = elim (Bool-cases (returned s.main_pc)) [
    | inl over ↦ let e' = rw over at e in cc
    | inr on ↦ running-Inv a s t (rw on at e) v
  ]

  begun-Inv : (str : ℕ) → Inv (begun str)
  begun-Inv str = record {
    five = refl;
    own = λ k pc e. rw (get_elem?-replicate 5 k demo_off pc e) tt;
    here = tt;
    texts = tt;
  }

  -- In every reached state of every interleaving, each task has printed nothing but its own name, or the error
  -- of its inquiry: main() overwrites the buffer for the next round, but the kernel copied the name before.
  pub Reached-OwnLines :
      (str : ℕ) (s : Names) → Reached (names_step refuses) (begun str) s → OwnLines s.out
  Reached-OwnLines str s r =
      let v = Reached_ind (names_step refuses) Inv step-Inv (begun-Inv str) r in v.texts
