-- ===== src/Channels/Lookup.antt =====
-- Channels that are looked up by their number.
use osns.Prelude.{
  ℕ, zero, suc, ◌+◌, ◌%◌, ◌^◌, ◌<◌, ◌≡◌, refl, ap, sym, subst, ◌∙◌, arith, Bool, true, false,
  Bool-cases, inl, inr, ◌⊎◌, Option, some, List, [], ◌∷◌, ◌++◌, append_assoc, length, All, ◌==◌,
  ==_refl,
}
use osns.SshString.{Run, done}
use osns.SimpleList.{Addr, element, same_addr}
use osns.SimpleList.Steps.{get_next_element}
use osns.SimpleList.Lists.{IsList}
use osns.SimpleList.Take.{first, get_list_head-first}
use osns.SimpleList.Walk.{get_next_element-first}
use osns.SimpleList.Others.{IsElement}
use osns.Channels.{
  Channels, channels_table_size, has_table, channel_of, try_channel, lookup_loop,
  lookup_ssh_channel_for_cb, add_ssh_channel,
}
use osns.Channels.Members.{contains, contains-head, contains-tail}
use osns.Channels.Invariant.{IsChannels}
use osns.Channels.Add.{with_channel}
use osns.Channels.Start.{start_new, add_ssh_channel-IsChannels}

module _ {R S : Type 0} (failed : R) (cb : ℕ → S → R × S) (n : ℕ) (s : S) (t : Channels) where
  -- What a lookup among some channels gives: the result of the callback for one of the channels with the
  -- number, or the failure where no channel has it.
  abbrev pub Outcome : (ℕ → Bool) → Run (R × S) → Type 0
  Outcome among run =
      ((j : ℕ) × (among j ≡ true) × (t.lcnr j ≡ n) × (run ≡ done (cb j s)))
      ⊎ (((j : ℕ) → among j ≡ true → (t.lcnr j == n) ≡ false) × (run ≡ done (failed, s)))

  others_have :
      (i j : ℕ) (zs : List Addr)
      → (t.lcnr i == n) ≡ false
      → ((m : ℕ) → contains (element m) zs ≡ true → (t.lcnr m == n) ≡ false)
      → contains (element j) (element i ∷ zs) ≡ true
      → (t.lcnr j == n) ≡ false
  unfolding contains same_addr
  others_have i j zs f none_has inside = elim (Bool-cases (j == i)) [
    | inl e ↦ let ji : j ≡ i = ground arith in rw ji f
    | inr g ↦ none_has j (rw g at inside)
  ]

  -- The loop passes a channel of another number.
  passes :
      (i : ℕ) (zs : List Addr) (rest : Run (R × S))
      → (t.lcnr i == n) ≡ false
      → Outcome (λ j. contains (element j) zs) rest
      → Outcome (λ j. contains (element j) (element i ∷ zs)) rest
  passes i zs rest f (inl (j, inside, at_n, run)) =
      inl (j, contains-tail (element j) (element i) zs inside, at_n, run)
  passes i zs rest f (inr (none_has, run)) =
      inr (λ j inside. others_have i j zs f none_has inside, run)

  step-Outcome :
      (i fuel : ℕ) (zs : List Addr) (next : Option Addr)
      → get_next_element (element i) t.heap ≡ some next
      → Outcome (λ j. contains (element j) zs) (lookup_loop fuel failed cb n s next t)
      → Outcome
          (λ j. contains (element j) (element i ∷ zs))
          (lookup_loop (suc fuel) failed cb n s (some (element i)) t)
  unfolding lookup_loop try_channel channel_of
  step-Outcome i fuel zs next at_next rest = elim (Bool-cases (t.lcnr i == n)) [
    | inl e ↦ inl (i, contains-head (element i) zs, ground arith, rw e refl)
    | inr f ↦ rw (f, at_next) (passes i zs (lookup_loop fuel failed cb n s next t) f rest)
  ]

  pub lookup_loop-Outcome :
      (k fuel : ℕ) (ys zs : List Addr)
      → IsList t.heap k (ys ++ zs)
      → All IsElement zs
      → length zs < fuel
      → Outcome (λ j. contains (element j) zs) (lookup_loop fuel failed cb n s (first zs) t)
  unfolding lookup_loop first contains
  lookup_loop-Outcome k zero ys zs list elements enough = absurd (omega arith)
  lookup_loop-Outcome k (suc fuel) ys [] list elements enough = inr (λ j no. absurd cc, refl)
  lookup_loop-Outcome k (suc fuel) ys (e ∷ zs) list ((i, at_i), elements) enough =
      let list' = subst (IsList (t.heap) k) (sym (append_assoc ys (e ∷ []) zs)) list in
      let rest = lookup_loop-Outcome k fuel (ys ++ (e ∷ [])) zs list' elements (omega arith) in
      let at_next = get_next_element-first (t.heap) k ys zs e list in
      subst
        (λ a.
          Outcome (λ j. contains (element j) (a ∷ zs))
            (lookup_loop (suc fuel) failed cb n s (some a) t))
        (sym at_i)
        (step-Outcome i fuel zs (first zs)
          (ap (λ a. get_next_element a t.heap) (sym at_i) ∙ at_next) rest)

  -- A lookup ends. It calls the callback once, for a channel in the table that has the number, and gives
  -- its result; where no channel in the table has the number, it fails and calls nothing.
  pub lookup_ssh_channel_for_cb-Outcome :
      (b : ℕ → List Addr)
      → IsChannels t b
      → Outcome (λ j. has_table (t.flags j)) (lookup_ssh_channel_for_cb failed cb n s t)
  unfolding lookup_ssh_channel_for_cb
  lookup_ssh_channel_for_cb-Outcome b ok =
      let k = n % channels_table_size in
      let k_lt : k < channels_table_size = omega arith in
      let at0 : 0 + k ≡ k = omega arith in
      let list = subst (λ (m : ℕ). IsList t.heap m (b k)) at0 (ok.table.lists k k_lt) in
      let enough : length (b k) < (t.heap.headers k).count + 1 = omega (arith, list.count_eq) in
      let run =
        lookup_loop-Outcome k ((t.heap.headers k).count + 1) [] (b k) list
          (ok.table.elements k k_lt) enough in
      let in_row : (j : ℕ) → t.lcnr j ≡ n → contains (element j) (b k) ≡ has_table (t.flags j) =
        λ j at_n. ap (λ (m : ℕ). contains (element j) (b (m % 64))) (sym at_n) ∙ ok.member j in
      rw (get_list_head-first (t.heap) k (b k) list) (elim run [
        | inl (j, inside, at_n, found) ↦ inl (j, sym (in_row j at_n) ∙ inside, at_n, found)
        | inr (none_has, fails) ↦ inr (
          λ j on. elim (Bool-cases (t.lcnr j == n)) [
            | inr f ↦ f
            | inl e ↦ none_has j (in_row j (ground arith) ∙ on)
          ],
          fails,
        )
      ])

front_loop :
    {R S : Type 0} (failed : R) (cb : ℕ → S → R × S) (n : ℕ) (s : S) (t : Channels) (i fuel : ℕ)
    → t.lcnr i ≡ n
    → lookup_loop (suc fuel) failed cb n s (some (element i)) t ≡ done (cb i s)
unfolding lookup_loop try_channel channel_of
front_loop failed cb n s t i fuel at_n = rw (at_n, ==_refl n) refl

-- The lookup finds the channel at the front of the row.
lookup-front :
    {R S : Type 0} (failed : R) (cb : ℕ → S → R × S) (n : ℕ) (s : S) (t : Channels)
    (b : ℕ → List Addr) (i : ℕ)
    → IsChannels t (with_channel b n i)
    → t.lcnr i ≡ n
    → lookup_ssh_channel_for_cb failed cb n s t ≡ done (cb i s)
unfolding lookup_ssh_channel_for_cb first
lookup-front failed cb n s t b i ok at_n =
    let k = n % channels_table_size in
    let k_lt : k < channels_table_size = omega arith in
    let at0 : 0 + k ≡ k = omega arith in
    let here : with_channel b n i k ≡ element i ∷ b k = rw (==_refl k) refl in
    let list0 =
      subst (λ (m : ℕ). IsList t.heap m (with_channel b n i k)) at0 (ok.table.lists k k_lt) in
    let list = subst (IsList (t.heap) k) here list0 in
    let more : suc (t.heap.headers k).count ≡ (t.heap.headers k).count + 1 = omega arith in
    rw (get_list_head-first (t.heap) k (element i ∷ b k) list, ← more)
      (front_loop failed cb n s t i ((t.heap.headers k).count) at_n)

-- A new channel whose callback succeeds, and leaves the flag of the table, where its row has room: the
-- result is 0, the channel stands at the front of the row of the next number, and the table is in order. A
-- lookup of this number calls its callback for the new channel, and not for an older one of the same number.
pub lookup-add_ssh_channel :
    {R S : Type 0} (failed : R) (cb : ℕ → S → R × S) (s : S) (start : ℕ → ℕ → Bool × ℕ)
    (t : Channels) (b : ℕ → List Addr) (i f : ℕ)
    → IsChannels t b
    → has_table (t.flags i) ≡ false
    → length (b (t.channelctr % channels_table_size)) + 1 < 2 ^ 64
    → start_new start i t ≡ (true, f)
    → has_table f ≡ true
    → (t' : Channels) × (add_ssh_channel start i t ≡ some (true, t'))
      × IsChannels t' (with_channel b t.channelctr i)
      × (lookup_ssh_channel_for_cb failed cb t.channelctr s t' ≡ done (cb i s))
lookup-add_ssh_channel failed cb s start t b i f ok off small starts on =
    let (t', run, ok', at_n) = add_ssh_channel-IsChannels start t b i f ok off small starts on in
    (t', run, ok', lookup-front failed cb (t.channelctr) s t' b i ok' at_n)
