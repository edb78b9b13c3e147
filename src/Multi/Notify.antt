-- ===== src/Multi/Notify.antt =====
-- Which clients `NotifyDirty` tells of a change.
use pika_panlei.Base.{
  ℕ, ◌%◌, ◌≡◌, refl, ◌∙◌, inl, inr, Bool, true, false, ◌||◌, Option, none, some, List, [], ◌∷◌,
  PString, All, length, ◌==◌, Bool-cases, arith,
}
use pika_panlei.Base.Table.{Table, find, put, find-put}
use pika_panlei.Clients.{Client, notify_client}
use pika_panlei.Multi.{is_current, notify_loop}

-- The client is alive, is not the one that made the change, and is told of it.
pub record Alerted (current : Option ℕ) (dbno : ℕ) (key : PString) (cs : Table Client) (id : ℕ)
    : Type 0 where
  pub client : Client
  pub alive : find id cs ≡ some client
  pub told : (notify_client dbno key client).0 ≡ true
  pub other : is_current current id ≡ false

notify_client-marks :
    (dbno : ℕ) (key : PString) (c : Client)
    → (notify_client dbno key c).0 ≡ true
    → (notify_client dbno key (notify_client dbno key c).1).0 ≡ true
unfolding notify_client
notify_client-marks dbno key c h = ground arith

module _ (current : Option ℕ) (dbno : ℕ) (key : PString) where
  Alerted-put :
      (cs : Table Client) (id j : ℕ) (a : Alerted current dbno key cs id)
      → Alerted current dbno key cs j
      → Alerted current dbno key (put id (notify_client dbno key a.client).1 cs) j
  Alerted-put cs id j a b = elim (Bool-cases (id == j)) [
    | inl h ↦ record {
      client = (notify_client dbno key a.client).1;
      alive = find-put id j _ cs ∙ rw h refl;
      told = notify_client-marks dbno key a.client a.told;
      other = b.other;
    }
    | inr h ↦ record {
      client = b.client;
      alive = find-put id j _ cs ∙ rw h b.alive;
      told = b.told;
      other = b.other;
    }
  ]

  All-put :
      (cs : Table Client) (id : ℕ) (a : Alerted current dbno key cs id) (ids : List ℕ)
      → All (Alerted current dbno key cs) ids
      → All (Alerted current dbno key (put id (notify_client dbno key a.client).1 cs)) ids
  All-put cs id a [] all = all
  All-put cs id a (j ∷ ids) every = (Alerted-put cs id j a every.0, All-put cs id a ids every.1)

  notify_loop-pair :
      (cs : Table Client) (id next : ℕ) (rest : List ℕ) (a : Alerted current dbno key cs id)
      → notify_loop current dbno key (id ∷ next ∷ rest) cs
        ≡ notify_loop current dbno key rest (put id (notify_client dbno key a.client).1 cs)
  unfolding notify_loop
  notify_loop-pair cs id next rest a = rw (a.alive, a.other, a.told, notify_loop) refl

  notify_loop-single :
      (cs : Table Client) (id : ℕ)
      → Alerted current dbno key cs id
      → notify_loop current dbno key (id ∷ []) cs ≡ none
  unfolding notify_loop
  notify_loop-single cs id a = rw (a.alive, a.other, a.told, notify_loop) refl

  -- Where an odd number of clients are to be told of a change, all of them alive, watching or
  -- dirty, and none the one that made it, the loop of `NotifyDirty` erases at the end of its
  -- vector.
  pub notify_loop-odd :
      (ids : List ℕ) (cs : Table Client)
      → All (Alerted current dbno key cs) ids
      → length ids % 2 ≡ 1
      → notify_loop current dbno key ids cs ≡ none
  notify_loop-odd [] cs every odd = absurd (omega arith)
  notify_loop-odd (id ∷ []) cs every odd = notify_loop-single cs id every.0
  notify_loop-odd (id ∷ next ∷ rest) cs every odd =
      notify_loop-pair cs id next rest every.0
      ∙ notify_loop-odd rest _ (All-put cs id every.0 rest every.1.1) (omega arith)

-- Every second number, from the first on.
unfoldable pub is_first : ℕ → List ℕ → Bool
is_first j [] = false
is_first j (id ∷ []) = id == j
is_first j (id ∷ next ∷ rest) = (id == j) || is_first j rest

module _ (current : Option ℕ) (dbno : ℕ) (key : PString) where
  -- Where an even number of clients are to be told of a change, all of them alive, watching or
  -- dirty, and none the one that made it, the loop of `NotifyDirty` removes them all from the list,
  -- but leaves every client as it was that is not at an even position.
  pub notify_loop-even :
      (ids : List ℕ) (cs : Table Client)
      → All (Alerted current dbno key cs) ids
      → length ids % 2 ≡ 0
      → (cs' : Table Client) × (notify_loop current dbno key ids cs ≡ some ([], cs'))
        × ((j : ℕ) → is_first j ids ≡ false → find j cs' ≡ find j cs)
  unfolding notify_loop is_first
  notify_loop-even [] cs every even = (cs, refl, λ j h. refl)
  notify_loop-even (id ∷ []) cs every even = absurd (omega arith)
  notify_loop-even (id ∷ next ∷ rest) cs every even =
      let a = every.0 in
      let (cs', e, same) =
        notify_loop-even rest (put id (notify_client dbno key a.client).1 cs)
          (All-put current dbno key cs id a rest every.1.1) (omega arith) in
      (
        cs',
        notify_loop-pair current dbno key cs id next rest a ∙ e,
        λ j h.
            same j (ground arith)
            ∙ find-put id j (notify_client dbno key a.client).1 cs
            ∙ ground arith,
      )
