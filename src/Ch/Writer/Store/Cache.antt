-- ===== src/Ch/Writer/Store/Cache.antt =====
-- The schema cache of ch/writer.go: what a lookup and a refresh answer and change.
use nexgo.Base.{
  ◌≡◌, refl, sym, ap, subst, ◌≢◌, ◌⊎◌, inl, inr, ◌↔◌, Text, Bool, true, false, ◌||◌, Option, none,
  some, List, [], ◌∷◌, map, keep, Dict, nat_eq, list_eq, list_beq_iff, lookup, insert,
  lookup-insert, lookup-insert_self, Result, ok, err, codes, arith, Bool-cases, if◌then◌else◌, ◌==◌,
}
use nexgo.Ch.Error.{TableName, Error}
use nexgo.Ch.Env.{Described, Conn, Codec}
use nexgo.Ch.Writer.Store.{
  Store, is_insertable, scan_columns, fetch_table_columns, get_table_columns, refresh_table_schema,
  cached_or_fetched, cache_fetched, refreshed,
}

any_of_three :
    {P Q R : Type 0} (a b c : Bool)
    → (a ≡ true) ↔ P
    → (b ≡ true) ↔ Q
    → (c ≡ true) ↔ R
    → ((if a || b || c then false else true) ≡ false) ↔ (P ⊎ (Q ⊎ R))
any_of_three true b c p q r = ((λ _. inl (p.0 refl)), (λ _. refl))
any_of_three false true c p q r = ((λ _. inr (inl (q.0 refl))), (λ _. refl))
any_of_three false false true p q r = ((λ _. inr (inr (r.0 refl))), (λ _. refl))
any_of_three {P} {Q} {R} false false false p q r = ((λ h. cc), none_holds)
  where
    none_holds : P ⊎ (Q ⊎ R) → true ≡ false
    none_holds (inl x) = sym (p.1 x)
    none_holds (inr (inl x)) = sym (q.1 x)
    none_holds (inr (inr x)) = sym (r.1 x)

module _ {W Column Row Value : Type 0} (conn : Conn W Row Value)
    (codec : Codec W Column Row Value) where
  abbrev pub parsed : Described → Column
  parsed d = codec.parse_column_type d.name d.type_str d.default_expr

  scan_columns_lem :
      (ds : List Described)
      → scan_columns conn codec (map ok ds)
        ≡ ok (map parsed (keep (λ d. is_insertable d.default_type) ds))
  unfolding scan_columns
  scan_columns_lem [] = refl
  scan_columns_lem (d ∷ ds) = ground (arith, scan_columns_lem ds)

  -- Where the server answers DESCRIBE with rows that all scan: the fetched schema has, in the order
  -- of the answer, exactly the columns whose default type is none of MATERIALIZED, ALIAS and
  -- EPHEMERAL.
  fetch_insertable_columns :
      (t : TableName) (w w' : W) (ds : List Described)
      → conn.query_describe t w ≡ (ok (map ok ds), w')
      → (fetch_table_columns conn codec t w
          ≡ (ok (map parsed (keep (λ d. is_insertable d.default_type) ds)), w'))
        × ((d : Text)
            → (is_insertable d ≡ false)
              ↔ ((d ≡ codes "MATERIALIZED") ⊎ ((d ≡ codes "ALIAS") ⊎ (d ≡ codes "EPHEMERAL"))))
  unfolding fetch_table_columns is_insertable
  fetch_insertable_columns t w w' ds e = (
    rw e (ap (λ r. (r, w')) (scan_columns_lem ds)),
    λ d.
        any_of_three _ _ _ (list_beq_iff d (codes "MATERIALIZED")) (list_beq_iff d (codes "ALIAS"))
          (list_beq_iff d (codes "EPHEMERAL")),
  )

  abbrev Answers : TableName → Result Error (List Column) × Store W Column → Type 0
  Answers t (err e, s) = Unit {0}
  Answers t (ok cols, s) = cached_or_fetched conn codec t s (lookup t s.columns) ≡ (ok cols, s)

  fetched-Answers :
      (t : TableName) (m : Dict TableName (List Column)) (q : Result Error (List Column) × W)
      → Answers t (cache_fetched conn codec t m q)
  fetched-Answers t m (err e, w) = tt
  fetched-Answers t m (ok cols, w) = rw (lookup-insert_self t cols m)

  lookup-Answers :
      (t : TableName) (s : Store W Column) (o : Option (List Column))
      → lookup t s.columns ≡ o
      → Answers t (cached_or_fetched conn codec t s o)
  lookup-Answers t s none l = fetched-Answers t s.columns (fetch_table_columns conn codec t s.world)
  lookup-Answers t s (some cols) l = rw l

  -- After a successful lookup the same lookup answers the same columns from the cache, without
  -- touching the server or the cache.
  get_table_columns_twice :
      (t : TableName) (s s' : Store W Column) (cols : List Column)
      → get_table_columns conn codec t s ≡ (ok cols, s')
      → get_table_columns conn codec t s' ≡ (ok cols, s')
  unfolding get_table_columns
  get_table_columns_twice t s s' cols e =
      subst (Answers t) e (lookup-Answers t s (lookup t s.columns) refl)

  abbrev Refreshes :
      TableName
      → Dict TableName (List Column)
      → Result Error (List Column)
      → Option Error × Store W Column
      → Type 0
  Refreshes t m q (r, s') =
      ((u : TableName) → u ≢ t → lookup u s'.columns ≡ lookup u m)
      × (r ≢ none → s'.columns ≡ m)
      × (r ≡ none
          → (cols : List Column) × (q ≡ ok cols)
            × (cached_or_fetched conn codec t s' (lookup t s'.columns) ≡ (ok cols, s')))

  refreshed-Refreshes :
      (t : TableName) (m : Dict TableName (List Column)) (q : Result Error (List Column) × W)
      → Refreshes t m q.0 (refreshed conn codec t m q)
  refreshed-Refreshes t m (err e, w) = ((λ u n. refl), (λ h. refl), (λ h. absurd (cc)))
  refreshed-Refreshes t m (ok cols, w) = (
    (λ u n. others u n (Bool-cases (t == u))),
    (λ h. absurd (h refl)),
    (λ h. (cols, refl, rw (lookup-insert_self t cols m))),
  )
    where
      others :
          (u : TableName)
          → u ≢ t
          → ((t == u) ≡ true) ⊎ ((t == u) ≡ false)
          → lookup u (insert t cols m) ≡ lookup u m
      others u n (inl e) = absurd (n (sym ((list_beq_iff t u).0 e)))
      others u n (inr e) = rw (lookup-insert t u cols m, e)

  -- A refresh that fails keeps every cached schema. One that succeeds replaces the schema of its
  -- table, which the next lookup answers without touching the server, and keeps those of the other
  -- tables.
  pub refresh_table_schema_lem :
      (t : TableName) (s s' : Store W Column) (r : Option Error)
      → refresh_table_schema conn codec t s ≡ (r, s')
      → ((u : TableName) → u ≢ t → lookup u s'.columns ≡ lookup u s.columns)
        × (r ≢ none → s'.columns ≡ s.columns)
        × (r ≡ none
            → (cols : List Column) × ((fetch_table_columns conn codec t s.world).0 ≡ ok cols)
              × (get_table_columns conn codec t s' ≡ (ok cols, s')))
  unfolding refresh_table_schema get_table_columns
  refresh_table_schema_lem t s s' r e =
      subst (Refreshes t s.columns (fetch_table_columns conn codec t s.world).0) e
        (refreshed-Refreshes t s.columns (fetch_table_columns conn codec t s.world))
