-- ===== src/Machines/Standing.antt =====
-- After a visit of one ciphertext all stand.
use quicke_r.Prelude.{
  ℕ, ◌≡◌, refl, sym, subst, ap, ◌∙◌, false, [], ◌∷◌, ◌++◌, Bytes, length, same, same_refl, same→eq,
  Bool-cases, inl, inr,
}
use quicke_r.Crypto.Evp.{Evp, EvpLaws}
use quicke_r.Server.Redis.{Redis}
use quicke_r.Server.Update.{Base64}
use quicke_r.Server.Update.Recode.{IsFaithful}
use quicke_r.Server.Turn.{Site}
use quicke_r.Hsm.{Hsm, HsmLaws}
use quicke_r.Actions.Loops.Answers.{Answers}
use quicke_r.Wire.Values.{Speaks}
use quicke_r.Wire.Kept.{Kept, Stays-Kept}
use quicke_r.Wire.Replaced.{Stays}
use quicke_r.Wire.Calls.{Parties, Living}
use quicke_r.Machines.{Fleet, KeyList, put_site}
use quicke_r.Machines.Visits.{Item, parties, Standing}

module _ (r : Redis) {e : Evp} (l : EvpLaws e) {b : Base64} {f : IsFaithful b} (sp : Speaks f)
    {h : Hsm} (hl : HsmLaws h) (patience : ℕ) (a : Answers hl patience) (items : ℕ → Item)
    (keys : KeyList) where
  abbrev pub Stands : (ℕ → ℕ) → (ℕ → ℕ) → (ℕ → ℕ) → Fleet r h → Type 0
  Stands = Standing r l sp hl patience a items keys

  pub put_there :
      (address : Bytes) (s : Site r) (sites : Bytes → Site r)
      → put_site r e b h address s sites address ≡ s
  unfolding put_site
  put_there address s sites = rw (put_site, same_refl address) refl

  pub put_elsewhere :
      (address other : Bytes) (s : Site r) (sites : Bytes → Site r)
      → same address other ≡ false
      → put_site r e b h address s sites other ≡ sites other
  unfolding put_site
  put_elsewhere address other s sites ne = rw (put_site, ne) refl

  -- The fleet after a visit.
  abbrev pub visited_fleet : ℕ → Parties r e b h → Fleet r h → Fleet r h
  visited_fleet i x w = record {
    sites = put_site r e b h (items i).address x.0.site w.sites;
    client = x.0.client;
    session = x.1;
  }

  pub put_size :
      (i k : ℕ) (w : Fleet r h) (x : Parties r e b h)
      → Stays r (items i).id (parties r l sp hl patience a items keys i w).0 x.0
      → length (put_site r e b h (items i).address x.0.site w.sites (items k).address).buff
        ≡ length (w.sites (items k).address).buff
  put_size i k w x stays = elim (Bool-cases (same (items i).address (items k).address)) [
    | inl here ↦
        let is : (items i).address ≡ (items k).address = same→eq _ _ here in
        subst
          (λ other.
            length (put_site r e b h (items i).address x.0.site w.sites other).buff
            ≡ length (w.sites other).buff)
          is
          (ap (λ s. length s.buff) (put_there (items i).address x.0.site w.sites) ∙ stays.site_size)
    | inr away ↦
        ap (λ s. length s.buff)
          (put_elsewhere (items i).address (items k).address x.0.site w.sites away)
  ]

  -- Another item at the visited server, or elsewhere.
  pub other_lives :
      (i k n room count : ℕ) (w : Fleet r h) (x : Parties r e b h)
      → same (items i).id (items k).id ≡ false
      → Stays r (items i).id (parties r l sp hl patience a items keys i w).0 x.0
      → Living r l sp hl patience a
          (items k).id
          (items k).t
          (items k).handle
          n
          room
          count
          (parties r l sp hl patience a items keys k w)
      → Living r l sp hl patience a
          (items k).id
          (items k).t
          (items k).handle
          n
          room
          count
          (parties r l sp hl patience a items keys k (visited_fleet i x w))
  other_lives i k n room count w x ne stays v = record {
    ae_key = v.ae_key;
    wrapped = v.wrapped;
    wrapped_size = v.wrapped_size;
    kept = elim (Bool-cases (same (items i).address (items k).address)) [
      | inl here ↦ there (same→eq _ _ here)
      | inr away ↦
          subst kept_in
            (sym (put_elsewhere (items i).address (items k).address x.0.site w.sites away)) v.kept
    ];
  }
    where
      kept_in : Site r → Type 0
      kept_in s =
          Kept r l f hl (items k).id (items k).handle ((items k).t ++ (0 ∷ [])) v.ae_key v.wrapped n
            room count s.state.db

      there :
          (items i).address ≡ (items k).address
          → kept_in (put_site r e b h (items i).address x.0.site w.sites (items k).address)
      there is =
          subst (λ other. kept_in (put_site r e b h (items i).address x.0.site w.sites other)) is
            (subst kept_in (sym (put_there (items i).address x.0.site w.sites)) (
              Stays-Kept r l f hl ne stays
                (subst (λ other. kept_in (w.sites other)) (sym is) v.kept)))

  pub own_lives :
      (i n room count : ℕ) (w : Fleet r h) (x : Parties r e b h)
      → Living r l sp hl patience a (items i).id (items i).t (items i).handle n room count x
      → Living r l sp hl patience a
          (items i).id
          (items i).t
          (items i).handle
          n
          room
          count
          (parties r l sp hl patience a items keys i (visited_fleet i x w))
  own_lives i n room count w x v = record {
    ae_key = v.ae_key;
    wrapped = v.wrapped;
    wrapped_size = v.wrapped_size;
    kept =
        subst
          (λ s.
            Kept r l f hl (items i).id (items i).handle ((items i).t ++ (0 ∷ [])) v.ae_key v.wrapped
              n room count s.state.db)
          (sym (put_there (items i).address x.0.site w.sites)) v.kept;
  }
