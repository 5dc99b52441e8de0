-- ===== src/KeyExchange.antt =====
-- The choice of algorithms from the two KEXINIT messages: src/ssh/keyexchange/compare.c.
mod Tests
pub mod Guess
pub mod Compare
pub mod Offers
pub mod Negotiate
use osns.Prelude.{
  ℕ, zero, suc, ◌+◌, ◌-◌, ◌^◌, Bool, true, false, Option, none, some, List, [], ◌∷◌, ◌++◌, ◌>>=◌,
}
use osns.Prelude.{◌==◌, ◌&&◌, ◌||◌, if◌then◌else◌, ltb, leb, length, drop}
use osns.Memory.{bytes_at, same_bytes}
use osns.CString.{text, strchr, strstr}
use osns.SshString.{SshString, Run, fault, out_of_fuel, done}

-- `list_c` and `list_s`: the list with a comma in front and behind, and the closing zero.
unfoldable pub enclosed_copy : SshString → Option (List ℕ)
enclosed_copy s = do bytes ← bytes_at s.ptr s.len; some (b',' ∷ (bytes ++ (b',' ∷ 0 ∷ [])))

-- `strchr(c_name + 1, ',')`. Without a comma the source goes on with NULL, which is undefined.
unfoldable pub next_name : List ℕ → Option (List ℕ × List ℕ)
next_name c_name = strchr (drop 1 c_name) b',' >>= λ found. found

-- The bytes that end up in `name`, which holds `size` zeros before: the name, if it fits.
unfoldable pub copy_name : List ℕ → ℕ → List ℕ
copy_name c_name size = if ltb (length c_name) size then c_name else []

-- `*(c_sep + 1)`
unfoldable pub keep : List ℕ → Option ℕ
keep (_ ∷ b ∷ _) = some b
keep _ = none

-- What follows `strstr` in the loop: the name was found, the list ends, or the rest of the loop.
unfoldable pub guess_step : List ℕ → ℕ → Option Bool → Option ℕ → Run (List ℕ) → Run (List ℕ)
guess_step name size none c_keep rest = fault
guess_step name size (some found) none rest = fault
guess_step name size (some true) (some c_keep) rest = done (copy_name name size)
guess_step name size (some false) (some c_keep) rest = if ltb 0 c_keep then rest else done []

-- The loop `findname` with `c_name` and the name that `c_sep` ends. A round passes a comma of `list_c`.
unfoldable pub find_name : ℕ → List ℕ → ℕ → List ℕ → List ℕ → Run (List ℕ)
unfolding guess_step next_name keep
find_name zero list_s size name c_sep = out_of_fuel
find_name (suc fuel) list_s size name c_sep =
    let rest : Run (List ℕ) = elim (next_name c_sep) [
      | none ↦ fault
      | some (n, sep) ↦ find_name fuel list_s size n sep
    ] in
    guess_step name size (strstr list_s (b',' ∷ (name ++ (b',' ∷ 0 ∷ [])))) (keep c_sep) rest

-- The two lists, once they are copied, with the first name on each.
unfoldable pub guess_lists :
    ℕ → List ℕ → Option (List ℕ × List ℕ) → Option (List ℕ × List ℕ) → ℕ → Run (List ℕ)
unfolding find_name
guess_lists fuel list_s (some (c, c_sep)) (some (s, s_sep)) size =
    let rest = find_name fuel list_s size c c_sep in
    if same_bytes c s then done (copy_name c size) else rest
guess_lists fuel list_s none _ size = fault
guess_lists fuel list_s (some _) none size = fault

unfoldable pub guess_copies : Option (List ℕ) → Option (List ℕ) → ℕ → Run (List ℕ)
unfolding guess_lists next_name
guess_copies (some list_c) (some list_s) size =
    guess_lists (length list_c) list_s (next_name list_c) (next_name list_s) size
guess_copies none _ size = fault
guess_copies (some _) none size = fault

unfoldable pub is_null : {A : Type 0} → Option A → Bool
is_null none = true
is_null (some _) = false

-- `name` afterwards, which is empty before. (The pointer of the client's list is tested twice, and
-- that of the server's list not at all.)
unfoldable pub get_best_guess : SshString → SshString → ℕ → Run (List ℕ)
unfolding guess_copies enclosed_copy is_null
get_best_guess clist_c clist_s size =
    if (clist_c.len == 0) || is_null clist_c.ptr || (clist_s.len == 0) || is_null clist_c.ptr
    then done []
    else guess_copies (enclosed_copy clist_c) (enclosed_copy clist_s) size
