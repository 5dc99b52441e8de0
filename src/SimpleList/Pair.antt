-- ===== src/SimpleList/Pair.antt =====
-- Two lists of elements in one store, of which one changes.
use osns.Prelude.{ℕ, ◌+◌, ◌^◌, ◌<◌, ◌≡◌, false, some, List, [], ◌∷◌, ◌++◌, All, ◌==◌, length, arith}
use osns.SimpleList.{Addr, Heap, same_addr}
use osns.SimpleList.Users.{add_list_element_first, add_list_element_last, remove_list_element}
use osns.SimpleList.Links.{Apart, All-split, All-join}
use osns.SimpleList.Insert.{IsOwned}
use osns.SimpleList.Lists.{IsList}
use osns.SimpleList.Frame.{Frame}
use osns.SimpleList.Add.{add_list_element_first-Frame, add_list_element_last-Frame}
use osns.SimpleList.Take.{remove_list_element-Frame}
use osns.SimpleList.Others.{
  others-Apart, IsElement, All-map, Apart-ring, other_rings, other_owner, Frame-IsList,
}

-- Two headers and their lists.
pub record Pair (heap : Heap) (k j : ℕ) (xs ys : List Addr) : Type 0 where
  pub apart_eq : (k == j) ≡ false
  pub list : IsList heap k xs
  pub other : IsList heap j ys
  pub elements : All IsElement xs
  pub other_elements : All IsElement ys

pub Pair-swap :
    (heap : Heap) (k j : ℕ) (xs ys : List Addr) → Pair heap k j xs ys → Pair heap j k ys xs
Pair-swap heap k j xs ys pair = record {
  apart_eq = let e = pair.apart_eq in ground arith;
  list = pair.other;
  other = pair.list;
  elements = pair.other_elements;
  other_elements = pair.elements;
}

-- The first list becomes another, where only the ring of `kept` and `e` change.
Frame-Pair :
    (heap heap' : Heap) (k j : ℕ) (xs ys kept new : List Addr) (e : Addr)
    → Pair heap k j xs ys
    → Frame heap heap' k kept e
    → All (IsOwned heap k) kept
    → All IsElement kept
    → IsElement e
    → Apart e ys
    → IsList heap' k new
    → All IsElement new
    → Pair heap' k j new ys
Frame-Pair heap heap' k j xs ys kept new e pair frame owned kept_elements is_element apart list
      els =
    record {
      apart_eq = pair.apart_eq;
      list = list;
      other =
          Frame-IsList heap heap' j k kept ys e frame (pair.apart_eq)
            (Apart-ring e j ys is_element apart)
            (other_rings heap j k kept ys (pair.apart_eq) owned kept_elements ((pair.other).owned)
              (pair.other_elements))
            (pair.other);
      elements = els;
      other_elements = pair.other_elements;
    }

module _ (heap : Heap) (k j : ℕ) (xs ys : List Addr) (e : Addr) (pair : Pair heap k j xs ys)
    (is_element : IsElement e) (apart_x : Apart e xs) (apart_y : Apart e ys)
    (small : length xs + 1 < 2 ^ 64) where
  pub add_last-Pair :
      (heap' : Heap) × (add_list_element_last k e heap ≡ some heap')
      × Pair heap' k j (xs ++ (e ∷ [])) ys
  add_last-Pair =
      let (heap', run, grown, frame) =
        add_list_element_last-Frame heap k xs e (pair.list) (Apart-ring e k xs is_element apart_x)
          small in
      (
        heap',
        run,
        Frame-Pair heap heap' k j xs ys xs (xs ++ (e ∷ [])) e pair frame ((pair.list).owned)
            (pair.elements) is_element apart_y grown
            (All-join IsElement xs (e ∷ []) (pair.elements) (is_element, tt)),
      )

  pub add_first-Pair :
      (heap' : Heap) × (add_list_element_first k e heap ≡ some heap') × Pair heap' k j (e ∷ xs) ys
  add_first-Pair =
      let (heap', run, grown, frame) =
        add_list_element_first-Frame heap k xs e (pair.list) (Apart-ring e k xs is_element apart_x)
          small in
      (
        heap',
        run,
        Frame-Pair heap heap' k j xs ys xs (e ∷ xs) e pair frame ((pair.list).owned) (pair.elements)
            is_element apart_y grown (is_element, pair.elements),
      )

pub remove-Pair :
    (heap : Heap) (k j : ℕ) (xs zs ys : List Addr) (e : Addr)
    → Pair heap k j (xs ++ (e ∷ zs)) ys
    → length (xs ++ (e ∷ zs)) < 2 ^ 64
    → (heap' : Heap) × (remove_list_element (some e) heap ≡ some heap')
      × Pair heap' k j (xs ++ zs) ys
      × Apart e (xs ++ zs)
      × Apart e ys
remove-Pair heap k j xs zs ys e pair small =
    let (heap', run, shorter, _, _, frame) =
      remove_list_element-Frame heap k xs zs e (pair.list) small in
    let (owned_x, (own, owned_z)) = All-split (IsOwned heap k) xs (e ∷ zs) ((pair.list).owned) in
    let (el_x, (el, el_z)) = All-split IsElement xs (e ∷ zs) (pair.elements) in
    let els = All-join IsElement xs zs el_x el_z in
    let kj : (j == k) ≡ false = let e = pair.apart_eq in ground arith in
    let apart_y =
      All-map (IsOwned heap j) (λ c. same_addr e c ≡ false)
        (λ c o. other_owner heap k j e c kj own o) ys ((pair.other).owned) in
    (
      heap',
      run,
      Frame-Pair heap heap' k j (xs ++ (e ∷ zs)) ys (xs ++ zs) (xs ++ zs) e pair frame
          (All-join (IsOwned heap k) xs zs owned_x owned_z) els el apart_y shorter els,
      others-Apart heap k xs zs e (pair.list),
      apart_y,
    )
