-- ===== src/Bench/Fifo/Refine.antt =====
-- The queue of messages behaves as a list of at most 19 frames.
use projet_commun_unirail.Prelude.{
  ℕ, zero, suc, ◌+◌, ◌-◌, ◌%◌, ◌<◌, ◌≡◌, refl, ap, sym, ◌∙◌, Bool, true, false, Option, none, some,
  List, [], ◌∷◌, ◌++◌, ◌>>=◌, if◌then◌else◌, ltb, ◌==◌, arith, take, length, update, All,
  All-append, Bool-cases, ◌⊎◌, inl, inr,
}
use mathlib.Core.Path.{ap₂}
use projet_commun_unirail.Bench.Message.{Can1Msg}
use projet_commun_unirail.Bench.Copies.{overwrite-Done}
use projet_commun_unirail.Bench.Fifo.{Fifo, init_fifo, is_file_vide, next, enfiler, defiler}

-- The array of a message has its 9 bytes from data0 on.
abbrev pub HasArray : Can1Msg → Type 0
HasArray m = length m.bytes ≡ 9

-- The messages from index `h` on.
abbrev pub window : (ℕ → Can1Msg) → ℕ → ℕ → List Can1Msg
window values h zero = []
window values h (suc n) = values h ∷ window values (next h) n

abbrev pub contents : Fifo → List Can1Msg
contents f = window f.values f.tete f.nb_transaction

pub record IsFifo (f : Fifo) : Type 0 where
  pub tete_in : f.tete < 20
  pub few : f.nb_transaction < 20
  pub behind : f.queue ≡ (f.tete + f.nb_transaction) % 20
  pub messages : All HasArray (contents f)

length-window : (values : ℕ → Can1Msg) (h n : ℕ) → length (window values h n) ≡ n
length-window values h zero = refl
length-window values h (suc n) = ap suc (length-window values (next h) n)

-- A message written behind the window is its last one.
window-update :
    (values : ℕ → Can1Msg) (m : Can1Msg) (n h i : ℕ)
    → h < 20
    → n < 20
    → i ≡ (h + n) % 20
    → window (update values i m) h (suc n) ≡ window values h n ++ m ∷ []
window-update values m zero h i p q e =
    let here : (i == h) ≡ true = ground arith in ap (λ t. t ∷ []) (rw here)
window-update values m (suc n) h i p q e =
    let apart : (i == h) ≡ false = ground arith in
    ap₂ ◌∷◌ (rw apart)
      (window-update values m n (next h) i (ground arith) (omega arith) (ground arith))

-- The members of a message that travel: data0 to data7, without the byte behind.
abbrev pub view : Can1Msg → Can1Msg
view m = record m { bytes = take 8 m.bytes }

-- A call of the queue, and what it gives back.
pub data Op : Type 0 where
  put : Can1Msg → Op
  get : Can1Msg → Op
  vide : Op

pub data Reply : Type 0 where
  added : Bool → Reply
  taken : Option Can1Msg → Reply
  answer : Bool → Reply

abbrev pub IsOp : Op → Type 0
IsOp (put m) = HasArray m
IsOp (get dest) = HasArray dest
IsOp vide = Unit

-- The calls on the queue of the code.
pub run : Fifo → List Op → Option (List Reply)
run f [] = some []
run f (put m ∷ ops) = run (enfiler f m).1 ops >>= λ rest. some (added (enfiler f m).0 ∷ rest)
run f (get dest ∷ ops) = defiler f dest >>= λ r.
    run r.1 ops >>= λ rest. some (taken (if r.0 then some (view r.2) else none) ∷ rest)
run f (vide ∷ ops) = run f ops >>= λ rest. some (answer (is_file_vide f) ∷ rest)

-- The calls on a list of at most 19 messages.
pub serve : List Can1Msg → List Op → List Reply
serve q [] = []
serve q (put m ∷ ops) =
    let room = ltb (length q) 19 in added room ∷ serve (if room then q ++ m ∷ [] else q) ops
serve [] (get dest ∷ ops) = taken none ∷ serve [] ops
serve (m ∷ q) (get dest ∷ ops) = taken (some (view m)) ∷ serve q ops
serve [] (vide ∷ ops) = answer true ∷ serve [] ops
serve (m ∷ q) (vide ∷ ops) = answer false ∷ serve (m ∷ q) ops

pub init_fifo-IsFifo : (f : Fifo) → IsFifo (init_fifo f) × (contents (init_fifo f) ≡ [])
unfolding init_fifo
init_fifo-IsFifo f =
    (record { tete_in = omega arith; few = omega arith; behind = refl; messages = tt }, refl)

pub enfiler_lem :
    (f : Fifo) (m : Can1Msg)
    → IsFifo f
    → HasArray m
    → let room = ltb (length (contents f)) 19 in
      ((enfiler f m).0 ≡ room)
      × (contents (enfiler f m).1 ≡ (if room then contents f ++ m ∷ [] else contents f))
      × IsFifo (enfiler f m).1
unfolding enfiler
enfiler_lem f m v w =
    rw (length-window f.values f.tete f.nb_transaction)
      (elim (Bool-cases (ltb f.nb_transaction 19)) [
        | inl room ↦
            let one_more : f.nb_transaction + 1 ≡ suc f.nb_transaction = omega arith in
            let longer : window (update f.values f.queue m) f.tete (f.nb_transaction + 1)
                ≡ contents f ++ m ∷ [] =
              ap (window (update f.values f.queue m) f.tete) one_more
              ∙ window-update f.values m f.nb_transaction f.tete f.queue v.tete_in v.few v.behind in
            rw room (
              refl,
              longer,
              record {
                tete_in = v.tete_in;
                few = ground arith;
                behind = ground (arith, v.behind);
                messages = rw longer (All-append HasArray (contents f) (m ∷ []) v.messages (w, tt));
              },
            )
        | inr full ↦ rw full (refl, refl, v)
      ])

-- A message that is taken, from a queue that holds one.
pub defiler-cons :
    (f : Fifo) (dest : Can1Msg) (n : ℕ)
    → f.nb_transaction ≡ suc n
    → IsFifo f
    → HasArray dest
    → (out : Can1Msg) × (f' : Fifo) × (defiler f dest ≡ some (true, f', out))
      × (view out ≡ view (f.values f.tete))
      × (contents f ≡ f.values f.tete ∷ contents f')
      × IsFifo f'
      × HasArray out
unfolding defiler
defiler-cons f dest n e v w =
    let head = f.values f.tete in
    let f' : Fifo = record f { tete = next f.tete; nb_transaction = f.nb_transaction - 1 } in
    let held : contents f ≡ head ∷ window f.values (next f.tete) n =
      ap (window f.values f.tete) e in
    let rest : contents f' ≡ window f.values (next f.tete) n =
      ap (window f.values (next f.tete)) (omega arith) in
    let all : All HasArray (head ∷ window f.values (next f.tete) n) = rw held at v.messages in
    let (out, done, size, same) =
      overwrite-Done 8 head.bytes dest.bytes (omega (arith, all.0)) (omega arith) in
    let some_left : (f.nb_transaction == 0) ≡ false = ground arith in
    (
      record head { bytes = out },
      f',
      rw (some_left, done),
      ap (λ bytes. record head { bytes = bytes }) same,
      held ∙ ap (λ t. head ∷ t) (sym rest),
      record {
        tete_in = ground (arith, v.tete_in);
        few = omega (arith, v.few);
        behind = ground (arith, v.behind, v.tete_in);
        messages = rw rest all.1;
      },
      size ∙ w,
    )

pub Nat-cases : (n : ℕ) → (n ≡ 0) ⊎ ((k : ℕ) × (n ≡ suc k))
Nat-cases zero = inl refl
Nat-cases (suc k) = inr (k, refl)

-- Whether the queue is empty, read off the indices or off the list.
pub is_file_vide_lem : (f : Fifo) → IsFifo f → is_file_vide f ≡ (f.nb_transaction == 0)
unfolding is_file_vide
is_file_vide_lem f v = ground (arith, v.behind, v.tete_in, v.few)

defiler-nil :
    (f : Fifo) (dest : Can1Msg) → f.nb_transaction ≡ 0 → defiler f dest ≡ some (false, f, dest)
unfolding defiler
defiler-nil f dest e = rw e

serve-vide :
    (q : List Can1Msg) (ops : List Op) (b : Bool)
    → b ≡ (length q == 0)
    → answer b ∷ serve q ops ≡ serve q (vide ∷ ops)
unfolding serve
serve-vide [] ops b e = rw e
serve-vide (m ∷ q) ops b e = rw e (ap (λ (t : Bool). answer t ∷ serve (m ∷ q) ops) (ground arith))

-- From a queue in order, any calls answer as those on the list of its messages that holds at most
-- 19: a put is refused exactly when the list is full, a get takes the oldest message, which arrives
-- with all its members and data, or nothing from an empty list, and the test tells whether the list
-- is empty.
pub run_refines :
    (ops : List Op) (f : Fifo) → IsFifo f → All IsOp ops → run f ops ≡ some (serve (contents f) ops)
unfolding run serve
run_refines [] f v ok = refl
run_refines (put m ∷ ops) f v ok =
    let (room, longer, v') = enfiler_lem f m v ok.0 in
    rw (run_refines ops (enfiler f m).1 v' ok.1, room, longer)
run_refines (get dest ∷ ops) f v ok = elim (Nat-cases f.nb_transaction) [
  | inl none_left ↦
      let empty : contents f ≡ [] = ap (window f.values f.tete) none_left in
      rw (defiler-nil f dest none_left, run_refines ops f v ok.1, empty)
  | inr (n, left) ↦
      let (out, f', done, same, held, v', _) = defiler-cons f dest n left v ok.0 in
      rw (done, held, run_refines ops f' v' ok.1, same)
]
run_refines (vide ∷ ops) f v ok = rw (run_refines ops f v ok.1) (
    ap some (
      serve-vide (contents f) ops (is_file_vide f)
        (is_file_vide_lem f v ∙ rw (length-window f.values f.tete f.nb_transaction))))
