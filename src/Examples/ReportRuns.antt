-- ===== src/Examples/ReportRuns.antt =====
-- A run of the response path on an error that the wallet reports.
use go_oid4vp.Base.{◌≡◌, ◌≢◌, refl, List, [], ◌∷◌, Option, some}
use go_oid4vp.Base.Bytes.{Bytes, codes}
use go_oid4vp.Session.{cross_device}
use go_oid4vp.Response.{read_response}
use go_oid4vp.Form.Query.{Values, get, parse_query}
use go_oid4vp.Response.Reported.{Reports, read_response-Reports}
use go_oid4vp.Examples.Toy.{toy_session}

abbrev form : Values
form = (codes "error", codes "access_denied" ∷ []) ∷ (codes "state", codes "st" ∷ []) ∷ []

parsed : parse_query (codes "error=access_denied&state=st") ≡ some form
unfolding get go_oid4vp.Form.Read.split go_oid4vp.Form.Read.read_pair go_oid4vp.Form.query_unescape
    go_oid4vp.Form.Read.upto go_oid4vp.Form.Read.beyond parse_query go_oid4vp.Form.Query.parse_parts
    go_oid4vp.Form.Query.parse_part go_oid4vp.Base.Bytes.has_byte go_oid4vp.Form.Query.append_value
    go_oid4vp.Base.Table.insert go_oid4vp.Base.Bytes.bytes_eq go_oid4vp.Base.Table.lookup
parsed = refl

reported : get (codes "error") form ≡ codes "access_denied"
unfolding get go_oid4vp.Base.Table.lookup go_oid4vp.Base.Bytes.bytes_eq
reported = refl

has_error : get (codes "error") form ≢ []
has_error e = cc (reported, e)

read_response-Reports_example :
    Reports
      (toy_session cross_device)
      form
      (read_response (toy_session cross_device) (codes "error=access_denied&state=st"))
read_response-Reports_example =
    read_response-Reports (toy_session cross_device) (codes "error=access_denied&state=st") form
      parsed has_error
