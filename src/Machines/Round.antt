-- ===== src/Machines/Round.antt =====
-- A round of one update machine, from the message that starts it.
use quicke_r.Prelude.{ℕ, Bytes}
use quicke_r.Crypto.Evp.{Evp, EvpLaws}
use quicke_r.Server.Redis.{Redis}
use quicke_r.Server.Update.{Base64}
use quicke_r.Server.Update.Recode.{IsFaithful}
use quicke_r.Server.Turn.{Site}
use quicke_r.Hsm.{Hsm, HsmLaws}
use quicke_r.Actions.Loops.Answers.{Answers}
use quicke_r.Wire.Values.{Speaks}
use quicke_r.Machines.{Fleet, Visit, KeyList, Crew}
use quicke_r.Machines.Visits.{Item, IsVisit, IsListed}
use quicke_r.Machines.Standing.{Stands}

module _ (r : Redis) {e : Evp} (l : EvpLaws e) {b : Base64} {f : IsFaithful b} (sp : Speaks f)
    {h : Hsm} (hl : HsmLaws h) (patience : ℕ) (a : Answers hl patience) (items : ℕ → Item)
    (keys : KeyList) (listed : IsListed items keys) (visits : ℕ → Visit)
    (good : (k : ℕ) → IsVisit (visits k)) (crews : ℕ → Crew h) where
  -- The servers as a machine finds them.
  abbrev pub manned : ℕ → (Bytes → Site r) → Fleet r h
  manned i sites = record { sites = sites; client = (crews i).client; session = (crews i).session }

  abbrev StandingFor : ℕ → (ℕ → ℕ) → (ℕ → ℕ) → (ℕ → ℕ) → (Bytes → Site r) → Type 0
  StandingFor i n left count sites =
      Stands r l sp hl patience a items keys n left count (manned i sites)
