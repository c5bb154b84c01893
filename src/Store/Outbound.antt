-- ===== src/Store/Outbound.antt =====
-- `outbound_message` of engine/app/store/api.py: claim_outbound and mark_outbound_sent, newest first.
use structured_chaos.Prelude.{
  Bool, List, Option, String, String-Eq, any, if◌then◌else◌, map, none, some, ℕ, ℕ-Eq, ◌&&◌, ◌=?◌,
  ◌∷◌,
}

pub record OutboundMessage : Type 0 where
  pub id : ℕ
  pub case_id : ℕ
  pub channel : String
  pub recipient : String
  pub body : String
  pub question_hash : String
  pub external_ref : Option String  -- `none` while the status is `sending`

abbrev pub Outbox : Type 0
Outbox = List OutboundMessage

abbrev pub is_claim_of : ℕ → String → OutboundMessage → Bool
is_claim_of case hash m = (m.case_id =? case) && (m.question_hash =? hash)

-- `none`: the question was claimed before.
unfoldable pub claim_outbound : OutboundMessage → Outbox → Outbox × Option ℕ
claim_outbound m box =
    if any (is_claim_of m.case_id m.question_hash) box then (box, none) else (m ∷ box, some m.id)

abbrev pub sent_as : ℕ → String → OutboundMessage → OutboundMessage
sent_as id ref m = if m.id =? id then record m { external_ref = some ref } else m

unfoldable pub mark_outbound_sent : ℕ → String → Outbox → Outbox
mark_outbound_sent id ref box = map (sent_as id ref) box
