-- ===== src/Ring/Run.antt =====
-- Sequences of calls of the ring of Buffer.h against the list of bytes.
use rio_network.Base.{
  ℕ, ◌≡◌, refl, ap, ap₂, ◌∙◌, Bool, List, [], ◌∷◌, arith, ltb, sym, subst, ◌+◌, ◌-◌, ◌≤◌, ◌==◌, pos,
  length, take_all,
}
use rio_network.Fifo
use rio_network.Ring.{
  Ring, Got, get_data_length, get_capacity_size, is_full, can_put_data, put_data, get_data,
  pop_data, clear,
}
use rio_network.Ring.Contents.{
  IsValid, contents, length-contents, clear-IsValid, contents-clear, buf_size-clear,
  data_length_bound,
}
use rio_network.Ring.Put.{put_data_refines}
use rio_network.Ring.Get.{get_data_refines, answer}
use rio_network.Ring.Pop.{pop_data_refines}

-- A call, and what its caller sees.
pub data Call : Type 0 where
  put : List ℕ → Call
  peek pop can_put : ℕ → Call
  size room full reset : Call

pub data Seen : Type 0 where
  accepted : Bool → Seen
  read : Got → Seen
  held : ℕ → Seen
  nothing : Seen

pub run : Ring → List Call → List Seen
run r [] = []
run r (put bytes ∷ cs) =
    let (r', done) = put_data r bytes (pos (length bytes)) in accepted done ∷ run r' cs
run r (peek len ∷ cs) = read (get_data r (pos len)) ∷ run r cs
run r (pop len ∷ cs) = let (r', left) = pop_data r len in accepted left ∷ run r' cs
run r (can_put len ∷ cs) = accepted (can_put_data r len) ∷ run r cs
run r (size ∷ cs) = held (get_data_length r) ∷ run r cs
run r (room ∷ cs) = held (get_capacity_size r) ∷ run r cs
run r (full ∷ cs) = accepted (is_full r) ∷ run r cs
run r (reset ∷ cs) = nothing ∷ run (clear r) cs

-- The same calls on the list of bytes.
pub run_fifo : ℕ → List ℕ → List Call → List Seen
run_fifo n q [] = []
run_fifo n q (put bytes ∷ cs) =
    let (q', done) = Fifo.put n q bytes in accepted done ∷ run_fifo n q' cs
run_fifo n q (peek len ∷ cs) = read (answer (Fifo.peek q len)) ∷ run_fifo n q cs
run_fifo n q (pop len ∷ cs) = let (q', left) = Fifo.pop q len in accepted left ∷ run_fifo n q' cs
run_fifo n q (can_put len ∷ cs) = accepted (ltb (length q + len) n) ∷ run_fifo n q cs
run_fifo n q (size ∷ cs) = held (length q) ∷ run_fifo n q cs
run_fifo n q (room ∷ cs) = held (n - length q - 1) ∷ run_fifo n q cs
run_fifo n q (full ∷ cs) = accepted (length q + 1 == n) ∷ run_fifo n q cs
run_fifo n q (reset ∷ cs) = nothing ∷ run_fifo n [] cs

-- Each `PopData` is for no more bytes than there are. `PopData` itself does not look.
abbrev pub AllWithin : ℕ → List ℕ → List Call → Type 0
AllWithin n q [] = Unit
AllWithin n q (put bytes ∷ cs) = AllWithin n (Fifo.put n q bytes).0 cs
AllWithin n q (pop len ∷ cs) = (len ≤ length q) × AllWithin n (Fifo.pop q len).0 cs
AllWithin n q (peek len ∷ cs) = AllWithin n q cs
AllWithin n q (can_put len ∷ cs) = AllWithin n q cs
AllWithin n q (size ∷ cs) = AllWithin n q cs
AllWithin n q (room ∷ cs) = AllWithin n q cs
AllWithin n q (full ∷ cs) = AllWithin n q cs
AllWithin n q (reset ∷ cs) = AllWithin n [] cs

-- The rest of the calls, on the ring that a call leaves.
later :
    (r r' : Ring) {done : Bool} (o : List ℕ × Bool) (cs : List Call)
    → r'.buf_size ≡ r.buf_size
    → (contents r', done) ≡ o
    → AllWithin r.buf_size o.0 cs
    → AllWithin r'.buf_size (contents r') cs
later r r' o cs same e h =
    subst (λ q. AllWithin r'.buf_size q cs) (sym (ap (λ x. x.0) e))
      (subst (λ n. AllWithin n o.0 cs) (sym same) h)

-- One call that refines the list, and the rest of the calls.
run_step :
    (r r' : Ring) (done : Bool) (o : List ℕ × Bool) (cs : List Call)
    → r'.buf_size ≡ r.buf_size
    → (contents r', done) ≡ o
    → run r' cs ≡ run_fifo r'.buf_size (contents r') cs
    → accepted done ∷ run r' cs ≡ accepted o.1 ∷ run_fifo r.buf_size o.0 cs
run_step r r' done o cs same e rest =
    ap₂ (λ d q. accepted d ∷ q) (ap (λ x. x.1) e)
      (rest ∙ ap₂ (λ n q. run_fifo n q cs) same (ap (λ x. x.0) e))

can_put_lem :
    {r : Ring} (len : ℕ)
    → IsValid r
    → can_put_data r len ≡ ltb (length (contents r) + len) r.buf_size
unfolding can_put_data
can_put_lem {r} len v = ground (arith, v, length-contents v, data_length_bound v)

room_lem : {r : Ring} → IsValid r → get_capacity_size r ≡ r.buf_size - length (contents r) - 1
unfolding get_capacity_size
room_lem v = omega (arith, length-contents v)

full_lem : {r : Ring} → IsValid r → is_full r ≡ (length (contents r) + 1 == r.buf_size)
unfolding is_full
full_lem {r} v = ground (arith, v, length-contents v, data_length_bound v)

-- The bytes of a valid ring, in order, are all that its calls show: any sequence of PutData and
-- GetData with lengths that are not negative, PopData for no more bytes than the list then has,
-- CanPutData, GetDataLength, GetCapacitySize, IsFull and Clear gets the same answers on the ring as
-- on the list of the bytes that it holds.
pub run_refines :
    (cs : List Call) {r : Ring}
    → IsValid r
    → AllWithin r.buf_size (contents r) cs
    → run r cs ≡ run_fifo r.buf_size (contents r) cs
unfolding run run_fifo
run_refines [] v h = refl
run_refines (put bytes ∷ cs) {r} v h =
    let (valid, e, same) = put_data_refines bytes (length bytes) v (omega arith) in
    let e' =
      e ∙ ap (Fifo.put r.buf_size (contents r)) (take_all (length bytes) bytes (omega arith)) in
    run_step r _ _ _ cs same e' (run_refines cs valid (later r _ _ cs same e' h))
run_refines (peek len ∷ cs) {r} v h =
    ap₂ (λ a b. read a ∷ b) (get_data_refines len v) (run_refines cs v h)
run_refines (pop len ∷ cs) {r} v (within, h) =
    let (valid, e, same) = pop_data_refines len v (omega (arith, within, length-contents v)) in
    run_step r _ _ _ cs same e (run_refines cs valid (later r _ _ cs same e h))
run_refines (can_put len ∷ cs) {r} v h =
    ap₂ (λ b q. accepted b ∷ q) (can_put_lem len v) (run_refines cs v h)
run_refines (size ∷ cs) v h = ap₂ (λ n q. held n ∷ q) (sym (length-contents v)) (run_refines cs v h)
run_refines (room ∷ cs) v h = ap₂ (λ n q. held n ∷ q) (room_lem v) (run_refines cs v h)
run_refines (full ∷ cs) v h = ap₂ (λ b q. accepted b ∷ q) (full_lem v) (run_refines cs v h)
run_refines (reset ∷ cs) {r} v h =
    let empty = contents-clear r in
    let same = buf_size-clear r in
    ap (◌∷◌ nothing) (
      run_refines cs (clear-IsValid v) (
        subst (λ q. AllWithin (clear r).buf_size q cs) (sym empty)
          (subst (λ n. AllWithin n [] cs) (sym same) h))
      ∙ ap₂ (λ n q. run_fifo n q cs) same empty)
