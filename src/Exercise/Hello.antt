-- ===== src/Exercise/Hello.antt =====
-- exercise-xenomai/test.c and test_b.c: a task that prints its name. test_b.c asks with a pointer that it
-- never assigned, and prints the name also when the inquiry failed. What the kernel answers is an
-- argument, and so is what the block holds before.
use edfomai.Base.{ℕ, suc, ◌≡◌, ◌≢◌, List, [], ◌∷◌, Name, Ptr}
use edfomai.Platform.{TaskInfo, Inquiry, filled, refused}

-- "start task", "Hello World!", "inquiring error" with its number, and "Task name".
pub data Line : Type 0 where
  start_task hello : Line
  inquiring_error : ℕ → Line
  task_name : Name → Line

-- What main() does: a print, rt_task_create with the name and the priority, and rt_task_start.
pub data Call : Type 0 where
  prints : Line → Call
  creates : Name → ℕ → Call
  starts : Call

-- "hello".
abbrev pub str : Name
str = 104 ∷ 101 ∷ 108 ∷ 108 ∷ 111 ∷ []

abbrev pub main : List Call
main = prints start_task ∷ creates str 50 ∷ starts ∷ []

-- `curtaskinfo` after the inquiry.
abbrev pub block : Inquiry → TaskInfo → TaskInfo
block (filled info) old = info
block (refused n) old = old

-- The lines in the order of the prints; the first argument is the inquiry about rt_task_self().
unfoldable pub demo : Inquiry → TaskInfo → List Line
demo answer curtaskinfo = hello ∷ task_name (block answer curtaskinfo).name ∷ []

abbrev error_of : Inquiry → List Line → List Line
error_of (filled info) rest = rest
error_of (refused n) rest = inquiring_error (suc n) ∷ rest

unfoldable pub demo_b : (Ptr → Inquiry) → Ptr → TaskInfo → List Line
demo_b rt_task_inquire curtask curtaskinfo =
    let answer = rt_task_inquire curtask in
    hello ∷ error_of answer (task_name (block answer curtaskinfo).name ∷ [])

-- What test_b.c prints does not depend on what the block held before when the inquiry succeeds; when it
-- fails, two blocks with different names before give different texts. The same is true of test.c.
unset_name :
    (rt_task_inquire : Ptr → Inquiry) (p : Ptr) (a b : TaskInfo)
    → ((info : TaskInfo)
        → rt_task_inquire p ≡ filled info
        → (demo_b rt_task_inquire p a ≡ demo_b rt_task_inquire p b)
          × (demo (rt_task_inquire p) a ≡ demo (rt_task_inquire p) b))
      × ((n : ℕ)
          → rt_task_inquire p ≡ refused n
          → a.name ≢ b.name
          → (demo_b rt_task_inquire p a ≢ demo_b rt_task_inquire p b)
            × (demo (rt_task_inquire p) a ≢ demo (rt_task_inquire p) b))
unfolding demo demo_b
unset_name rt_task_inquire p a b = (
  λ info fine. (rw fine, rw fine),
  λ n bad other. (λ e. other (let e' = rw bad at e in cc), λ e. other (let e' = rw bad at e in cc)),
)
