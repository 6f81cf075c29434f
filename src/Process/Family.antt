-- ===== src/Process/Family.antt =====
-- kern/process/proc.c: the tree of processes. A parent's `cptr` is its youngest child; `optr` leads
-- from a child to the next older one, and `yptr` back.
pub mod Children
pub mod Link
pub mod Detached
pub mod Unlink
use a_smart_mlfq_project_bas.Common.{ℕ, Option, none, some}
use a_smart_mlfq_project_bas.Common.Store.{update}
use a_smart_mlfq_project_bas.Sched.Proc.{Proc}

-- `if (o != NULL) o->yptr = y`
unfoldable pub set_yptr : (ℕ → Proc) → Option ℕ → Option ℕ → (ℕ → Proc)
set_yptr procs none y = procs
set_yptr procs (some o) y = update procs o (record (procs o) { yptr = y })

-- `if (y != NULL) y->optr = o; else parent->cptr = o`
unfoldable pub set_optr : (ℕ → Proc) → Option ℕ → ℕ → Option ℕ → (ℕ → Proc)
set_optr procs none par o = update procs par (record (procs par) { cptr = o })
set_optr procs (some y) par o = update procs y (record (procs y) { optr = o })

-- the pointers that `set_links` and `do_exit` write: `p` becomes the youngest child of `par`
unfoldable pub link_child : (ℕ → Proc) → ℕ → ℕ → (ℕ → Proc)
link_child procs p par =
    let older = (procs par).cptr in
    let procs₁ = update procs p (record (procs p) { yptr = none; optr = older }) in
    let procs₂ = set_yptr procs₁ older (some p) in
    update procs₂ par (record (procs₂ par) { cptr = some p })

-- the pointers that `remove_links` writes
unfoldable pub unlink_child : (ℕ → Proc) → ℕ → ℕ → (ℕ → Proc)
unlink_child procs p par =
    let q = procs p in
    let procs₁ = set_yptr procs q.optr q.yptr in set_optr procs₁ (procs₁ p).yptr par (procs₁ p).optr

-- one round of the loop of `do_exit`, but for the wake-up: `init` adopts the youngest child
unfoldable pub adopt_child : (ℕ → Proc) → ℕ → ℕ → ℕ → (ℕ → Proc)
adopt_child procs current init p =
    let procs₁ = update procs current (record (procs current) { cptr = (procs p).optr }) in
    let procs₂ = link_child procs₁ p init in
    update procs₂ p (record (procs₂ p) { parent = some init })
