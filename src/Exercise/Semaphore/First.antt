-- ===== src/Exercise/Semaphore/First.antt =====
-- The first task of exercise-xenomai/semaphore.c keeps the turns.
use edfomai.Base.{suc, ◌-◌, ◌≡◌, refl, some, arith, ltb, inl, inr, Bool-cases}
use edfomai.Tasks.{sem_p_lem, moved}
use edfomai.Exercise.Semaphore.{
  iter, TaskPc, before, taken, loaded, changed, printed, finished, Pair, task_one,
}
use edfomai.Exercise.Semaphore.Rounds.{said, bumped-said, idle-Local, Inv}

pub one-Inv : (pc : TaskPc) (s t : Pair) → s.one ≡ pc → task_one pc s ≡ some t → Inv s → Inv t
unfolding task_one
one-Inv (before i) s t here e v = elim (Bool-cases (ltb i iter)) [
  | inl more ↦
      let (n, had, e') = sem_p_lem s.sem_global1 _ t (rw more at e) in
      let first = rw (here, had) at v.first in
      let second = rw here at v.second in
      let counted = rw here at v.counted in
      let lines = rw here at v.lines in
      let (low, mid, high) = bumped-said s.two in
      moved Inv e' (record {
        first = omega arith;
        second = omega arith;
        counted = omega arith;
        lines = lines;
        one_within = ground arith;
        two_within = v.two_within;
        one_local = tt;
        two_local = v.two_local;
      })
  | inr over ↦
      let within = rw here at v.one_within in
      let ended : i ≡ iter = ground arith in
      let first = rw here at v.first in
      let second = rw here at v.second in
      let counted = rw here at v.counted in
      let lines = rw (here, ended) at v.lines in
      let (low, mid, high) = bumped-said s.two in
      moved Inv (rw over at e) (record {
        first = omega arith;
        second = omega arith;
        counted = omega arith;
        lines = lines;
        one_within = tt;
        two_within = v.two_within;
        one_local = tt;
        two_local = v.two_local;
      })
]
one-Inv (taken i) s t here e v =
    let first = rw here at v.first in
    let second = rw here at v.second in
    let counted = rw here at v.counted in
    let lines = rw here at v.lines in
    let (low, mid, high) = bumped-said s.two in
    moved Inv e (record {
      first = omega arith;
      second = omega arith;
      counted = omega arith;
      lines = lines;
      one_within = rw here at v.one_within;
      two_within = v.two_within;
      one_local = refl;
      two_local = v.two_local;
    })
one-Inv (loaded i g) s t here e v =
    let first = rw here at v.first in
    let second = rw here at v.second in
    let counted = rw here at v.counted in
    let lines = rw here at v.lines in
    let (low, mid, high) = bumped-said s.two in
    let mine : g ≡ s.global = rw here at v.one_local in
    moved Inv e (record {
      first = omega arith;
      second = omega arith;
      counted = omega arith;
      lines = lines;
      one_within = rw here at v.one_within;
      two_within = v.two_within;
      one_local = refl;
      two_local = idle-Local s.two _ (omega arith);
    })
one-Inv (changed i g) s t here e v =
    let first = rw here at v.first in
    let second = rw here at v.second in
    let counted = rw here at v.counted in
    let lines = rw here at v.lines in
    let (low, mid, high) = bumped-said s.two in
    let mine : g ≡ s.global = rw here at v.one_local in
    let is_one : g ≡ 1 = omega arith in
    let now : i - said s.two ≡ 0 = omega arith in
    let after : suc i - said s.two ≡ 1 = omega arith in
    moved Inv e (record {
      first = omega arith;
      second = omega arith;
      counted = omega arith;
      lines = rw (is_one, after, lines, now);
      one_within = rw here at v.one_within;
      two_within = v.two_within;
      one_local = tt;
      two_local = v.two_local;
    })
one-Inv (printed i) s t here e v =
    let first = rw here at v.first in
    let second = rw here at v.second in
    let counted = rw here at v.counted in
    let lines = rw here at v.lines in
    let (low, mid, high) = bumped-said s.two in
    moved Inv e (record {
      first = omega arith;
      second = omega arith;
      counted = omega arith;
      lines = lines;
      one_within = omega (arith, rw here at v.one_within);
      two_within = v.two_within;
      one_local = tt;
      two_local = v.two_local;
    })
one-Inv finished s t here e v = cc
