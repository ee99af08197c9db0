-- ===== src/Dcapi/Sound.antt =====
-- Which responses `ProcessDCAPIResponse` accepts.
use mathlib.Core.List.{Mem}
use go_oid4vp.Base.{◌≤◌, ◌<◌, ◌≡◌, ◌↔◌, true, false, some, List, map, arith, length}
use go_oid4vp.Base.Bytes.{Bytes, contains, contains_iff, is_empty}
use go_oid4vp.Platform.{Platform, Payload}
use go_oid4vp.Session.{Session}
use go_oid4vp.Engine.{Engine}
use go_oid4vp.Fault.{ok, >>=-eq-ok, or_fail-eq-ok, refuse_if-eq-ok}
use go_oid4vp.Machine.{Machine, session, now}
use go_oid4vp.Machine.Laws.{continue-eq-ok}
use go_oid4vp.Response.{is_dcapi}
use go_oid4vp.Response.Opened.{Opens, open_response-Opens, Opens-open_response}
use go_oid4vp.Response.Process.Sound.{ticked}
use go_oid4vp.Response.VpToken.{Presentation, presentations_from_vp_token}
use go_oid4vp.Dcapi.Process.{
  with_origin, read_dcapi_response, admit_dcapi_response, process_dcapi_response,
}

module _ {V : Platform} where
  pub record Admits (e : Engine V) (origin body : Bytes) (w : Machine V) (s : Session V)
      : Type 0 where
    pub pointed : w.session ≡ some s
    pub flow : is_dcapi s.flow ≡ true
    pub consumed : s.consumed ≡ true
    pub unexpired : w.clock 0 < s.expires_at
    pub expected : Mem origin s.expected_origins
    pub fits : length body ≤ e.max_response_body

  pub record Carries (s : Session V) (origin body : Bytes) (prs : List Presentation) : Type 0 where
    pub jwe : Bytes
    pub payload : Payload
    pub thumbprint : Bytes
    pub bare : List Presentation
    pub decodes : V.decode_dcapi_body body ≡ some jwe
    pub not_blank : is_empty jwe ≡ false
    pub opens : Opens s jwe payload thumbprint
    pub presented : presentations_from_vp_token s payload.vp_token thumbprint ≡ ok bare
    pub at_origin : prs ≡ map (with_origin origin) bare

  admit-Admits :
      (e : Engine V) (origin body : Bytes) (w w' : Machine V) (s : Session V)
      → admit_dcapi_response e origin body w ≡ (ok s, w')
      → Admits e origin body w s × (w' ≡ ticked w)
  unfolding admit_dcapi_response session now
  admit-Admits e origin body w w' s h = (
    record {
      pointed = ground arith;
      flow = ground arith;
      consumed = ground arith;
      unexpired = ground arith;
      expected = (contains_iff s.expected_origins origin).0 (ground arith);
      fits = ground arith;
    },
    ground arith,
  )

  Admits-admit :
      (e : Engine V) (origin body : Bytes) (w : Machine V) (s : Session V)
      → Admits e origin body w s
      → admit_dcapi_response e origin body w ≡ (ok s, ticked w)
  unfolding admit_dcapi_response session now
  Admits-admit e origin body w s a =
      let x : contains s.expected_origins origin ≡ true =
        (contains_iff s.expected_origins origin).1 a.expected in
      ground arith

  read-Carries :
      (s : Session V) (origin body : Bytes) (prs : List Presentation)
      → read_dcapi_response s origin body ≡ ok prs
      → Carries s origin body prs
  unfolding read_dcapi_response
  read-Carries s origin body prs h =
      let (jwe, decoded, h₁) = >>=-eq-ok _ _ h in
      let (u, blank, h₂) = >>=-eq-ok _ _ h₁ in
      let ((payload, thumbprint), opened, h₃) = >>=-eq-ok _ _ h₂ in
      let (bare, presented, h₄) = >>=-eq-ok _ _ h₃ in
      record {
        jwe = jwe;
        payload = payload;
        thumbprint = thumbprint;
        bare = bare;
        decodes = or_fail-eq-ok _ _ decoded;
        not_blank = refuse_if-eq-ok _ _ blank;
        opens = open_response-Opens s jwe payload thumbprint opened;
        presented = presented;
        at_origin = ground arith;
      }

  Carries-read :
      (s : Session V) (origin body : Bytes) (prs : List Presentation)
      → Carries s origin body prs
      → read_dcapi_response s origin body ≡ ok prs
  unfolding read_dcapi_response
  Carries-read s origin body prs c = rw (
    c.decodes,
    c.not_blank,
    Opens-open_response s c.jwe c.payload c.thumbprint c.opens,
    c.presented,
    c.at_origin,
  )

  pub record Accepts (e : Engine V) (origin body : Bytes) (w : Machine V) (prs : List Presentation)
      (w' : Machine V) : Type 0 where
    pub s : Session V
    pub admits : Admits e origin body w s
    pub carries : Carries s origin body prs
    pub unchanged : w' ≡ ticked w

  process-Accepts :
      (e : Engine V) (origin body : Bytes) (w w' : Machine V) (prs : List Presentation)
      → process_dcapi_response e origin body w ≡ (ok prs, w')
      → Accepts e origin body w prs w'
  unfolding process_dcapi_response
  process-Accepts e origin body w w' prs h =
      let (s, v, admitted, h₁) = continue-eq-ok (admit_dcapi_response e origin body w) _ h in
      let a = admit-Admits e origin body w v s admitted in
      record {
        s = s;
        admits = a.0;
        carries = read-Carries s origin body prs (ground arith);
        unchanged = ground (arith, a.1);
      }

  Accepts-process :
      (e : Engine V) (origin body : Bytes) (w w' : Machine V) (prs : List Presentation)
      → Accepts e origin body w prs w'
      → process_dcapi_response e origin body w ≡ (ok prs, w')
  unfolding process_dcapi_response
  Accepts-process e origin body w w' prs a = rw (
    Admits-admit e origin body w a.s a.admits,
    Carries-read a.s origin body prs a.carries,
    a.unchanged,
  )

  -- `ProcessDCAPIResponse` returns these presentations exactly if the session is there, of the DCAPI
  -- flow, consumed and unexpired, the calling origin is one of its expected origins, and the body is
  -- within the cap and holds a response that decrypts with the session's own key (with an `apv`, if
  -- any, that encodes its nonce) to a payload whose vp_token gives the presentations, with the
  -- origin set on each of them. It changes nothing but the reading of the clock.
  pub process_dcapi_response_iff :
      (e : Engine V) (origin body : Bytes) (w w' : Machine V) (prs : List Presentation)
      → (process_dcapi_response e origin body w ≡ (ok prs, w')) ↔ Accepts e origin body w prs w'
  process_dcapi_response_iff e origin body w w' prs =
      (process-Accepts e origin body w w' prs, Accepts-process e origin body w w' prs)
