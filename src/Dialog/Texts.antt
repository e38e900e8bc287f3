-- ===== src/Dialog/Texts.antt =====
-- The summary of an import: `renderImportSummary` and `formatImportError` of app.js, and the other
-- texts that `setImportSummary` shows. A summary is its status class and its text.
use modbus_simulator_go.Base.{
  ℕ, not, ◌||◌, List, [], ◌∷◌, ◌++◌, Text, codes, is_empty, text_eq, any, ltb, ◌==◌, if◌then◌else◌,
}
use modbus_simulator_go.Base.Digits.{to_decimal}
use modbus_simulator_go.Report.{Report, PrivateReport}

pub data Summary : Type 0 where
  -- the empty text
  no_summary : Summary
  ok warn : Text → Summary

-- `parts.join(separator)`
unfoldable pub join : Text → List Text → Text
join separator [] = []
join separator (part ∷ []) = part
join separator (part ∷ next ∷ parts) = part ++ (separator ++ join separator (next ∷ parts))

-- `if (count) parts.push(`label count`)`
abbrev pub counted : Text → ℕ → List Text
counted label count = if count == 0 then [] else (label ++ b' ' ∷ to_decimal count) ∷ []

abbrev pub nothing_read : Text
nothing_read = codes "未识别到有效报文"

abbrev pub no_pairs : ℕ → List Text
no_pairs pairs = if pairs == 0 then nothing_read ∷ [] else []

unfoldable pub private_parts : PrivateReport → List Text
private_parts r =
    counted (codes "新增规则") r.created_rules
    ++ (counted (codes "更新规则") r.updated_rules
        ++ (counted (codes "HEX") r.hex_detected ++ counted (codes "ASCII") r.ascii_detected))

unfoldable pub private_reasons : PrivateReport → List Text
private_reasons r =
    r.errors
    ++ (no_pairs r.pairs
        ++ (counted (codes "解析错误") r.parse_errors
            ++ (counted (codes "发送未配对") r.unmatched_sends
                ++ counted (codes "接收未配对") r.unmatched_receives)))

abbrev pub or_nothing_read : List Text → List Text
or_nothing_read [] = nothing_read ∷ []
or_nothing_read (r ∷ reasons) = r ∷ reasons

abbrev pub failed : Text
failed = codes "导入失败："

unfoldable pub render_private_summary : PrivateReport → Summary
unfolding private_parts private_reasons join
render_private_summary r =
    if ltb 0 r.processed || (ltb 0 r.created_rules || ltb 0 r.updated_rules)
    then ok (codes "导入成功：" ++ join (codes "，") (private_parts r))
    else warn (failed ++ join (codes "；") (or_nothing_read (private_reasons r)))

unfoldable pub reasons : Report → List Text
reasons r =
    r.errors
    ++ (no_pairs r.pairs
        ++ (counted (codes "CRC错误") r.crc_errors
            ++ (counted (codes "解析错误") r.parse_errors
                ++ (counted (codes "发送未配对") r.unmatched_sends
                    ++ (counted (codes "接收未配对") r.unmatched_receives
                        ++ (counted (codes "写功能码已忽略") r.skipped_writes
                            ++ counted (codes "警告") r.warnings))))))

-- `[...new Set(list)]`: the first of equal texts stays; `seen` holds those before, the last first.
unfoldable pub unique_from : List Text → List Text → List Text
unique_from seen [] = []
unique_from seen (t ∷ texts) =
    if any (text_eq t) seen then unique_from seen texts else t ∷ unique_from (t ∷ seen) texts

abbrev pub failure : List Text → Text
failure [] = codes "导入失败"
failure (r ∷ rs) = failed ++ join (codes "；") (r ∷ rs)

unfoldable pub render_import_summary : Report → Summary
unfolding reasons unique_from join
render_import_summary r =
    if ltb 0 r.processed then ok (codes "导入成功") else warn (failure (unique_from [] (reasons r)))

-- What is thrown: nothing, a text, or an object with `error` and `message`.
pub data Thrown : Type 0 where
  nothing : Thrown
  text : Text → Thrown
  failure_of : (error message : Text) → Thrown

unfoldable pub format_import_error : Thrown → Text
format_import_error nothing = codes "导入失败"
format_import_error (text s) = if is_empty s then codes "导入失败" else failed ++ s
format_import_error (failure_of error message) =
    if not (is_empty error)
    then failed ++ error
    else if not (is_empty message)
    then failed ++ message
    else codes "导入失败"
