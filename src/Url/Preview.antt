-- ===== src/Url/Preview.antt =====
-- services/url/index.js: the consumer of the preview results.
use bearlink.Prelude.{ℕ, String, Option, none, some}
use bearlink.Prelude.Exec.{Result, ok, err, other}
use bearlink.Shared.Json.{Json, null, obj, Fields, end, property}

-- the data of the uRL.update; what is undefined leaves its column as it is
pub record PreviewData : Type 0 where
  pub preview_title : Option Json
  pub preview_description : Option Json
  pub preview_image_url : Option Json
  pub preview_fetched_at : ℕ

-- channel.ack(msg), and channel.nack(msg, false, false), which drops the message
pub data PreviewOutcome : Type 0 where
  acked dropped : PreviewOutcome

-- the destructured value; null throws, and other values than objects have none of the properties
abbrev fields_in : Option Json → Result Fields
fields_in none = err other
fields_in (some null) = err other
fields_in (some (obj fields)) = ok fields
fields_in (some _) = ok end

abbrev preview_data : ℕ → Fields → PreviewData
preview_data now fields = record {
  preview_title = property "title" fields;
  preview_description = property "description" fields;
  preview_image_url = property "image" fields;
  preview_fetched_at = now;
}

-- `parse` is JSON.parse, and `update` the uRL.update of the row with an id
module _ {Db : Type 0} (parse : String → Option Json)
    (update : Option Json → PreviewData → Db → Result (Unit {0}) × Db) where
  abbrev settle_preview : Result (Unit {0}) × Db → PreviewOutcome × Db
  settle_preview (ok tt, db) = (acked, db)
  settle_preview (err e, db) = (dropped, db)

  abbrev save_preview : ℕ → Result Fields → Db → Result (Unit {0}) × Db
  save_preview now (ok fields) db = update (property "urlId" fields) (preview_data now fields) db
  save_preview now (err e) db = (err e, db)

  unfoldable pub consume_preview_result : ℕ → String → Db → PreviewOutcome × Db
  consume_preview_result now content db =
      settle_preview (save_preview now (fields_in (parse content)) db)
