-- ===== src/Ch/Client/Orderly.antt =====
-- The steps of ch/client.go keep the order in which the connection and the writer are used and closed.
use nexgo.Base.{
  ℕ, zero, suc, ◌+◌, ◌≡◌, refl, ap, sym, ◌∙◌, subst, Bool, true, false, Option, none, some, List,
  [], ◌∷◌, ◌++◌, append_assoc, ◌⊎◌, inl, inr, arith, if◌then◌else◌, All, All-append,
}
use nexgo.Ch.Error.{Error}
use nexgo.Ch.Client.{
  Client, Call, ping, query, query_row, exec, close_conn, new_writer, close_writer, called,
  writer_begin, writer_once, query_rows, query_one, exec_query, ping_conn, close, Step, ask_rows,
  ask_row, ask_exec, ask_ping, shut, begin_writer, end_writer, System, passed, finished, step, run,
}

abbrev pub is_close : Call → Bool
is_close close_conn = true
is_close close_writer = true
is_close _ = false

-- How often a writer was made.
abbrev pub made : List Call → ℕ
made [] = 0
made (new_writer ∷ ks) = suc (made ks)
made (k ∷ ks) = made ks

abbrev pub one_if : Bool → ℕ
one_if true = 1
one_if false = 0

abbrev pub NoClose : List Call → Type 0
NoClose = All (λ k. is_close k ≡ false)

-- What Close asks for and what comes behind it: it closes the writer and then the connection; the
-- connection, where no writer was made; or a call of Writer makes one behind that.
pub data Ending : Type 0 where
  with_writer without_writer late_writer : Ending

abbrev pub ending_calls : Ending → List Call
ending_calls with_writer = close_writer ∷ close_conn ∷ []
ending_calls without_writer = close_conn ∷ []
ending_calls late_writer = close_conn ∷ new_writer ∷ []

abbrev pub made_before : Ending → ℕ
made_before with_writer = 1
made_before _ = 0

abbrev pub has_one : Ending → Bool
has_one without_writer = false
has_one _ = true

abbrev pub IsOpen : Client → Type 0
IsOpen c = (c.closed ≡ false) × NoClose c.calls × (made c.calls ≡ one_if c.has_writer)

abbrev pub IsShut : Client → Type 0
IsShut c =
    (c.closed ≡ true)
    × (front : List Call) × (e : Ending) × NoClose front
    × (made front ≡ made_before e)
    × (c.calls ≡ front ++ ending_calls e)
    × (c.has_writer ≡ has_one e)

made-append : (ks js : List Call) → made (ks ++ js) ≡ made ks + made js
made-append [] js = omega arith
made-append (k ∷ ks) js = ground (arith, made-append ks js)

-- One more call on an open client.
used :
    (c : Client) (k : Call)
    → is_close k ≡ false
    → made (k ∷ []) ≡ 0
    → IsOpen c
    → IsOpen (called k c)
used c k e m (open_now, quiet, count) = (
  open_now,
  All-append _ c.calls (k ∷ []) quiet (e, tt),
  omega (arith, made-append c.calls (k ∷ []), m, count),
)

abbrev pub IsOrderly : Client → Type 0
IsOrderly c = IsOpen c ⊎ IsShut c

-- The branches behind the test of a flag.
if_false :
    {A : Type 0} (P : Client → Type 0) (b : Bool) (x y : A × Client)
    → b ≡ false
    → P (y.1)
    → P ((if b then x else y).1)
if_false P false x y e p = p
if_false P true x y e p = cc

if_true :
    {A : Type 0} (P : Client → Type 0) (b : Bool) (x y : A × Client)
    → b ≡ true
    → P (x.1)
    → P ((if b then x else y).1)
if_true P true x y e p = p
if_true P false x y e p = cc

-- Close on an open client.
close-IsShut :
    (c : Client) (b : Bool)
    → c.has_writer ≡ b
    → IsOpen c
    → IsShut (record (called close_conn (if b then called close_writer c else c)) { closed = true })
close-IsShut c true e (open_now, quiet, count) = (
  refl,
  c.calls,
  with_writer,
  quiet,
  count ∙ ap one_if e,
  append_assoc c.calls (close_writer ∷ []) (close_conn ∷ []),
  e,
)
close-IsShut c false e (open_now, quiet, count) =
    (refl, c.calls, without_writer, quiet, count ∙ ap one_if e, refl, e)

once-IsOpen :
    (c : Client) (b : Bool)
    → c.has_writer ≡ b
    → IsOpen c
    → IsOpen (if b then c else record (called new_writer c) { has_writer = true })
once-IsOpen c true e h = h
once-IsOpen c false e (open_now, quiet, count) = (
  open_now,
  All-append _ c.calls (new_writer ∷ []) quiet (refl, tt),
  omega (arith, made-append c.calls (new_writer ∷ []), count, ap one_if e),
)

once-IsShut :
    (c : Client) (b : Bool)
    → c.has_writer ≡ b
    → IsShut c
    → IsShut (if b then c else record (called new_writer c) { has_writer = true })
once-IsShut c true e h = h
once-IsShut c false e (now, front, with_writer, quiet, count, all, one) = cc
once-IsShut c false e (now, front, late_writer, quiet, count, all, one) = cc
once-IsShut c false e (now, front, without_writer, quiet, count, all, one) = (
  now,
  front,
  late_writer,
  quiet,
  count,
  ap (λ ks. ks ++ (new_writer ∷ [])) all ∙ append_assoc front (close_conn ∷ []) (new_writer ∷ []),
  refl,
)

end-IsOpen : (n : ℕ) (c : Client) → IsOpen c → IsOpen (finished n c).client
unfolding writer_once
end-IsOpen zero c h = h
end-IsOpen (suc n) c h = once-IsOpen c c.has_writer refl h

end-IsShut : (n : ℕ) (c : Client) → IsShut c → IsShut (finished n c).client
unfolding writer_once
end-IsShut zero c h = h
end-IsShut (suc n) c h = once-IsShut c c.has_writer refl h

pub passed_client : (e : Option Error) (s : System) → (passed e s).client ≡ s.client
passed_client none s = refl
passed_client (some e) s = refl

step_open : (x : Step) (s : System) → IsOpen s.client → IsOrderly (step x s).client
unfolding step query_rows query_one exec_query ping_conn close
step_open (ask_rows answer) s h =
    if_false IsOrderly s.client.closed _ _ h.0 (inl (used s.client query refl refl h))
step_open (ask_row answer) s h =
    if_false IsOrderly s.client.closed _ _ h.0 (inl (used s.client query_row refl refl h))
step_open (ask_exec answer) s h =
    if_false IsOrderly s.client.closed _ _ h.0 (inl (used s.client exec refl refl h))
step_open (ask_ping answer) s h =
    if_false IsOrderly s.client.closed _ _ h.0 (inl (used s.client ping refl refl h))
step_open (shut answer) s h =
    if_false IsOrderly s.client.closed _ _ h.0
      (inr (close-IsShut s.client s.client.has_writer refl h))
step_open begin_writer s h = subst IsOrderly (sym (passed_client (writer_begin s.client) s)) (inl h)
step_open end_writer s h = inl (end-IsOpen s.pending s.client h)

step-IsShut : (x : Step) (s : System) → IsShut s.client → IsShut (step x s).client
unfolding step query_rows query_one exec_query ping_conn close
step-IsShut (ask_rows answer) s h = if_true IsShut s.client.closed _ _ h.0 h
step-IsShut (ask_row answer) s h = if_true IsShut s.client.closed _ _ h.0 h
step-IsShut (ask_exec answer) s h = if_true IsShut s.client.closed _ _ h.0 h
step-IsShut (ask_ping answer) s h = if_true IsShut s.client.closed _ _ h.0 h
step-IsShut (shut answer) s h = if_true IsShut s.client.closed _ _ h.0 h
step-IsShut begin_writer s h = subst IsShut (sym (passed_client (writer_begin s.client) s)) h
step-IsShut end_writer s h = end-IsShut s.pending s.client h

pub orderly : (xs : List Step) (s : System) → IsOrderly s.client → IsOrderly (run xs s).client
unfolding run
orderly [] s h = h
orderly (x ∷ xs) s (inl h) = orderly xs (step x s) (step_open x s h)
orderly (x ∷ xs) s (inr h) = orderly xs (step x s) (inr (step-IsShut x s h))
