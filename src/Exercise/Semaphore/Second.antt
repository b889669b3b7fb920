-- ===== src/Exercise/Semaphore/Second.antt =====
-- The second task of exercise-xenomai/semaphore.c keeps the turns.
use edfomai.Base.{suc, ◌-◌, ◌≡◌, refl, some, arith, ltb, inl, inr, Bool-cases}
use edfomai.Tasks.{sem_p_lem, moved}
use edfomai.Exercise.Semaphore.{
  iter, TaskPc, before, taken, loaded, changed, printed, finished, Pair, task_two,
}
use edfomai.Exercise.Semaphore.Rounds.{said, bumped-said, idle-Local, Inv}

pub two-Inv : (pc : TaskPc) (s t : Pair) → s.two ≡ pc → task_two pc s ≡ some t → Inv s → Inv t
unfolding task_two
two-Inv (before i) s t here e v = elim (Bool-cases (ltb i iter)) [
  | inl more ↦
      let (n, had, e') = sem_p_lem s.sem_global2 _ t (rw more at e) in
      let first = rw here at v.first in
      let second = rw (here, had) at v.second in
      let counted = rw here at v.counted in
      let lines = rw here at v.lines in
      let (low, mid, high) = bumped-said s.one in
      moved Inv e' (record {
        first = omega arith;
        second = omega arith;
        counted = omega arith;
        lines = lines;
        two_within = ground arith;
        one_within = v.one_within;
        two_local = tt;
        one_local = v.one_local;
      })
  | inr over ↦
      let within = rw here at v.two_within in
      let ended : i ≡ iter = ground arith in
      let first = rw here at v.first in
      let second = rw here at v.second in
      let counted = rw here at v.counted in
      let lines = rw (here, ended) at v.lines in
      let (low, mid, high) = bumped-said s.one in
      moved Inv (rw over at e) (record {
        first = omega arith;
        second = omega arith;
        counted = omega arith;
        lines = lines;
        two_within = tt;
        one_within = v.one_within;
        two_local = tt;
        one_local = v.one_local;
      })
]
two-Inv (taken i) s t here e v =
    let first = rw here at v.first in
    let second = rw here at v.second in
    let counted = rw here at v.counted in
    let lines = rw here at v.lines in
    let (low, mid, high) = bumped-said s.one in
    moved Inv e (record {
      first = omega arith;
      second = omega arith;
      counted = omega arith;
      lines = lines;
      two_within = rw here at v.two_within;
      one_within = v.one_within;
      two_local = refl;
      one_local = v.one_local;
    })
two-Inv (loaded i g) s t here e v =
    let first = rw here at v.first in
    let second = rw here at v.second in
    let counted = rw here at v.counted in
    let lines = rw here at v.lines in
    let (low, mid, high) = bumped-said s.one in
    let mine : g ≡ s.global = rw here at v.two_local in
    moved Inv e (record {
      first = omega arith;
      second = omega arith;
      counted = omega arith;
      lines = lines;
      two_within = rw here at v.two_within;
      one_within = v.one_within;
      two_local = refl;
      one_local = idle-Local s.one _ (omega arith);
    })
two-Inv (changed i g) s t here e v =
    let first = rw here at v.first in
    let second = rw here at v.second in
    let counted = rw here at v.counted in
    let lines = rw here at v.lines in
    let (low, mid, high) = bumped-said s.one in
    let mine : g ≡ s.global = rw here at v.two_local in
    let is_zero : g ≡ 0 = omega arith in
    let now : said s.one - i ≡ 1 = omega arith in
    let after : said s.one - suc i ≡ 0 = omega arith in
    moved Inv e (record {
      first = omega arith;
      second = omega arith;
      counted = omega arith;
      lines = rw (is_zero, after, lines, now);
      two_within = rw here at v.two_within;
      one_within = v.one_within;
      two_local = tt;
      one_local = v.one_local;
    })
two-Inv (printed i) s t here e v =
    let first = rw here at v.first in
    let second = rw here at v.second in
    let counted = rw here at v.counted in
    let lines = rw here at v.lines in
    let (low, mid, high) = bumped-said s.one in
    moved Inv e (record {
      first = omega arith;
      second = omega arith;
      counted = omega arith;
      lines = lines;
      two_within = omega (arith, rw here at v.two_within);
      one_within = v.one_within;
      two_local = tt;
      one_local = v.one_local;
    })
two-Inv finished s t here e v = cc
