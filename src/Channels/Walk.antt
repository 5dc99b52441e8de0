-- ===== src/Channels/Walk.antt =====
-- Walking along all channels.
use osns.Prelude.{
  ℕ, zero, suc, ◌+◌, ◌≤◌, ◌<◌, ◌≡◌, refl, sym, subst, ◌∙◌, arith, Bool, Bool-cases, inl, inr,
  Option, none, some, List, [], ◌∷◌, ◌++◌, append_assoc, length, All, lt→ltb, if◌then◌else◌,
}
use osns.SshString.{Run, done}
use osns.SimpleList.{Addr, element}
use osns.SimpleList.Lists.{IsList}
use osns.SimpleList.Take.{first, get_list_head-first}
use osns.SimpleList.Walk.{get_next_element-first}
use osns.SimpleList.Others.{IsElement}
use osns.Channels.{
  Channels, channels_table_size, channel_of, channel_at, next_channel, get_next_ssh_channel,
  walk_row, walk_rows, walk_ssh_channels,
}
use osns.Channels.Invariant.{IsChannels}

-- The channels of some elements.
unfoldable pub channels_of : List Addr → List ℕ
unfolding channel_of
channels_of [] = []
channels_of (x ∷ xs) = elim (channel_of x) [ none ↦ [] | some i ↦ i ∷ channels_of xs ]

-- The channels of `n` rows, from the one with the number `k` on.
unfoldable pub all_channels : ℕ → ℕ → (ℕ → List Addr) → List ℕ
unfolding channels_of
all_channels zero k b = []
all_channels (suc n) k b = channels_of (b k) ++ all_channels n (k + 1) b

-- One channel after another, up to the first at which the callback stops.
unfoldable pub visit : {S : Type 0} → (ℕ → S → Bool × S) → List ℕ → S → Option ℕ × S
visit cb [] s = (none, s)
visit cb (i ∷ is) s =
    let after = cb i s in
    let rest = visit cb is (after.1) in if after.0 then (some i, after.1) else rest

unfoldable first_channel : List ℕ → Option ℕ
first_channel [] = none
first_channel (i ∷ is) = some i

channel_at-first :
    (xs : List Addr)
    → All IsElement xs
    → channel_at (first xs) ≡ some (first_channel (channels_of xs))
unfolding channel_at first first_channel channels_of channel_of
channel_at-first [] h = refl
channel_at-first (x ∷ xs) ((i, at_i), h) = rw at_i refl

module _ {S : Type 0} (cb : ℕ → S → Bool × S) (t : Channels) where
  -- The walk along a row goes on behind a channel.
  row-step :
      (fuel k i : ℕ) (is : List ℕ) (s : S)
      → get_next_ssh_channel (some i) k t ≡ some (first_channel is)
      → walk_row fuel cb k (first_channel is) ((cb i s).1) t ≡ done (visit cb is ((cb i s).1))
      → walk_row (suc fuel) cb k (some i) s t ≡ done (visit cb (i ∷ is) s)
  unfolding walk_row visit
  row-step fuel k i is s next rest = elim (Bool-cases ((cb i s).0)) [
    | inl stops ↦ rw (walk_row, next, stops) refl
    | inr goes ↦ rw (walk_row, next, goes) rest
  ]

  get_next-first :
      (k i : ℕ) (ys zs : List Addr)
      → k < channels_table_size
      → IsList t.heap k (ys ++ (element i ∷ zs))
      → All IsElement zs
      → get_next_ssh_channel (some i) k t ≡ some (first_channel (channels_of zs))
  unfolding get_next_ssh_channel next_channel
  get_next-first k i ys zs k_lt list elements =
      rw
        (
          lt→ltb k channels_table_size k_lt,
          get_next_element-first (t.heap) k ys zs (element i) list,
        )
        (channel_at-first zs elements)

  get_first :
      (k : ℕ) (xs : List Addr)
      → k < channels_table_size
      → IsList t.heap k xs
      → All IsElement xs
      → get_next_ssh_channel none k t ≡ some (first_channel (channels_of xs))
  unfolding get_next_ssh_channel next_channel
  get_first k xs k_lt list elements =
      rw (lt→ltb k channels_table_size k_lt, get_list_head-first (t.heap) k xs list)
        (channel_at-first xs elements)

  walk_row-visit :
      (k fuel : ℕ) (ys zs : List Addr) (s : S)
      → k < channels_table_size
      → IsList t.heap k (ys ++ zs)
      → All IsElement zs
      → length zs < fuel
      → walk_row fuel cb k (first_channel (channels_of zs)) s t ≡ done (visit cb (channels_of zs) s)
  unfolding walk_row visit channels_of first_channel channel_of
  walk_row-visit k zero ys zs s k_lt list elements enough = absurd (omega arith)
  walk_row-visit k (suc fuel) ys [] s k_lt list elements enough = refl
  walk_row-visit k (suc fuel) ys (e ∷ zs) s k_lt list ((i, at_i), elements) enough =
      let list' = subst (IsList (t.heap) k) (sym (append_assoc ys (e ∷ []) zs)) list in
      let at_list = subst (λ a. IsList t.heap k (ys ++ (a ∷ zs))) at_i list in
      rw at_i (
        row-step fuel k i (channels_of zs) s (get_next-first k i ys zs k_lt at_list elements) (
          walk_row-visit k fuel (ys ++ (e ∷ [])) zs ((cb i s).1) k_lt list' elements (omega arith)))

  -- What follows a row from which the walk came back.
  after_row : ℕ → ℕ → Option ℕ × S → Run (Option ℕ × S)
  after_row n k (some i, s) = done (some i, s)
  after_row n k (none, s) = walk_rows n cb (k + 1) s t

  rows-step :
      (n k : ℕ) (channel : Option ℕ) (s : S) (gives : Option ℕ × S)
      → get_next_ssh_channel none k t ≡ some channel
      → walk_row ((t.heap.headers k).count + 1) cb k channel s t ≡ done gives
      → walk_rows (suc n) cb k s t ≡ after_row n k gives
  unfolding walk_rows after_row
  rows-step n k channel s (some i, s') at_first row = rw (walk_rows, at_first, row) refl
  rows-step n k channel s (none, s') at_first row = rw (walk_rows, at_first, row) refl

  -- Rows one after another are their channels one after another.
  visit-after :
      (n k : ℕ) (is rest : List ℕ) (s : S)
      → ((s' : S) → walk_rows n cb (k + 1) s' t ≡ done (visit cb rest s'))
      → after_row n k (visit cb is s) ≡ done (visit cb (is ++ rest) s)
  unfolding after_row visit
  visit-after n k [] rest s h = h s
  visit-after n k (i ∷ is) rest s h = elim (Bool-cases ((cb i s).0)) [
    | inl stops ↦ rw stops refl
    | inr goes ↦ rw goes (visit-after n k is rest ((cb i s).1) h)
  ]

  walk_rows-visit :
      (n k : ℕ) (b : ℕ → List Addr) (s : S)
      → IsChannels t b
      → k + n ≤ channels_table_size
      → walk_rows n cb k s t ≡ done (visit cb (all_channels n k b) s)
  unfolding walk_rows visit all_channels
  walk_rows-visit zero k b s ok fits = refl
  walk_rows-visit (suc n) k b s ok fits =
      let k_lt : k < channels_table_size = omega arith in
      let at0 : 0 + k ≡ k = omega arith in
      let list = subst (λ (m : ℕ). IsList t.heap m (b k)) at0 (ok.table.lists k k_lt) in
      let elements = ok.table.elements k k_lt in
      let row =
        walk_row-visit k ((t.heap.headers k).count + 1) [] (b k) s k_lt list elements
          (omega (arith, list.count_eq)) in
      rows-step n k (first_channel (channels_of (b k))) s (visit cb (channels_of (b k)) s)
        (get_first k (b k) k_lt list elements) row
      ∙ visit-after n k (channels_of (b k)) (all_channels n (k + 1) b) s
          (λ s'. walk_rows-visit n (k + 1) b s' ok (omega arith))

  -- A walk along a table that is in order ends. It calls the callback for the channels one after another,
  -- row by row and each row from its head, up to the first for which it gives not 0, and gives this channel,
  -- or NULL where there is none.
  pub walk_ssh_channels-visit :
      (b : ℕ → List Addr) (s : S)
      → IsChannels t b
      → walk_ssh_channels cb s t ≡ done (visit cb (all_channels channels_table_size 0 b) s)
  unfolding walk_ssh_channels
  walk_ssh_channels-visit b s ok = walk_rows-visit channels_table_size 0 b s ok (omega arith)
