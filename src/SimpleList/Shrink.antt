-- ===== src/SimpleList/Shrink.antt =====
-- A header whose list has one element less.
use osns.Prelude.{
  ℕ, zero, suc, ◌+◌, ◌-◌, ◌%◌, ◌^◌, ◌<◌, ◌≡◌, refl, arith, some, false, ◌==◌, ==_refl,
}
use osns.SimpleList.{
  Addr, head, tail, same_addr, Heap, Header, standalone_element_ops, unlink, count_down,
  adapt_header_ops, set_header_ops, empty_header_ops, one_list_ops, default_header_ops,
}
use osns.SimpleList.Users.{delete}
use osns.SimpleList.Remove.{Without}
use osns.SimpleList.Lists.{ops_for}

-- What is done to the header when a list shrinks to `m` elements.
unfoldable pub shrink : ℕ → ℕ → Heap → Heap
shrink zero k heap = set_header_ops k empty_header_ops (count_down k heap)
shrink (suc zero) k heap = set_header_ops k one_list_ops (count_down k heap)
shrink (suc (suc m)) k heap = count_down k heap

down : (c m : ℕ) → c ≡ suc m → c < 2 ^ 64 → (c + 2 ^ 64 - 1) % 2 ^ 64 ≡ m
down c m h small = omega arith

pub unlink-headers : (heap : Heap) (p e n : Addr) → (unlink p e n heap).headers ≡ heap.headers
unfolding unlink
unlink-headers heap p e n = refl

pub delete-ops :
    (m : ℕ) (heap : Heap) (k : ℕ) (p e n : Addr)
    → heap.n e ≡ some n
    → heap.p e ≡ some p
    → (heap.headers k).count ≡ suc m
    → suc m < 2 ^ 64
    → delete (ops_for (suc m)) k e heap ≡ some (shrink m k (unlink p e n heap))
unfolding delete ops_for shrink count_down set_header_ops adapt_header_ops unlink
    osns.SimpleList.delete_element_one same_addr osns.SimpleList.delete_element_default
delete-ops zero heap k p e n at_n at_p count small = rw (at_n, at_p) refl
delete-ops (suc zero) heap k p e n at_n at_p count small =
    rw (at_n, at_p, ==_refl k, down _ 1 count (omega arith)) refl
delete-ops (suc (suc m)) heap k p e n at_n at_p count small =
    let not_one : (suc (suc m) == 1) ≡ false = ground arith in
    let not_zero : (suc (suc m) == 0) ≡ false = ground arith in
    rw (at_n, at_p, ==_refl k, down _ (suc (suc m)) count (omega arith), not_one, not_zero) refl

pub shrink-Without :
    (m : ℕ) (heap heap' : Heap) (k : ℕ) (p e n : Addr)
    → Without heap heap' p e n
    → Without heap (shrink m k heap') p e n
unfolding shrink count_down set_header_ops
shrink-Without zero heap heap' k p e n w = record {
  p_n = w.p_n;
  n_p = w.n_p;
  e_n = w.e_n;
  e_p = w.e_p;
  e_h = w.e_h;
  e_ops = w.e_ops;
  keep_n = w.keep_n;
  keep_p = w.keep_p;
  keep_owner = w.keep_owner;
}
shrink-Without (suc zero) heap heap' k p e n w = record {
  p_n = w.p_n;
  n_p = w.n_p;
  e_n = w.e_n;
  e_p = w.e_p;
  e_h = w.e_h;
  e_ops = w.e_ops;
  keep_n = w.keep_n;
  keep_p = w.keep_p;
  keep_owner = w.keep_owner;
}
shrink-Without (suc (suc m)) heap heap' k p e n w = record {
  p_n = w.p_n;
  n_p = w.n_p;
  e_n = w.e_n;
  e_p = w.e_p;
  e_h = w.e_h;
  e_ops = w.e_ops;
  keep_n = w.keep_n;
  keep_p = w.keep_p;
  keep_owner = w.keep_owner;
}

pub shrink-header :
    (m : ℕ) (heap : Heap) (k : ℕ)
    → (heap.headers k).count ≡ suc m
    → suc m < 2 ^ 64
    → (heap.headers k).ops ≡ ops_for (suc m)
    → (((shrink m k heap).headers k).count ≡ m) × (((shrink m k heap).headers k).ops ≡ ops_for m)
unfolding shrink count_down set_header_ops ops_for
shrink-header zero heap k h small o =
    (rw (==_refl k) (down _ _ h (omega arith)), rw (==_refl k) refl)
shrink-header (suc zero) heap k h small o =
    (rw (==_refl k) (down _ _ h (omega arith)), rw (==_refl k) refl)
shrink-header (suc (suc m)) heap k h small o =
    (rw (==_refl k) (down _ _ h (omega arith)), rw (==_refl k, o) refl)
