-- ===== src/Examples/Stored.antt =====
-- An encoding that stores of a toy session whether it is consumed, and its code.
use go_oid4vp.Base.{◌≡◌, refl, ap, sym, ◌∙◌, Bool, true, false, Option, none, some, [], ◌∷◌, ◌==◌}
use go_oid4vp.Base.Bytes.{Bytes}
use go_oid4vp.Session.{Session, same_device}
use go_oid4vp.Store.{Codec, mark_consumed}
use go_oid4vp.Examples.Toy.{toy, toy_session}

abbrev restore : Session toy → Bool → Bytes → Session toy
restore s used code = record s { consumed = used; response_code = code }

abbrev write : Bool → Bytes → Bytes
write true code = 1 ∷ code
write false code = 0 ∷ code

abbrev read : Session toy → Bytes → Option (Session toy)
read s [] = none
read s (b ∷ code) = some (restore s (b == 1) code)

pub read-write :
    (s : Session toy) (used : Bool) (code : Bytes)
    → read s (write used code) ≡ some (restore s used code)
read-write s true code = refl
read-write s false code = refl

-- For the session itself, with another mark and another code.
abbrev pub codec_for : Session toy → Codec toy
codec_for t = record {
  encode = λ s. some (write s.consumed s.response_code);
  decode = read t;
  IsStorable = λ s. s ≡ restore t s.consumed s.response_code;
  encoding = λ s h. write s.consumed s.response_code;
  encode_storable = λ s h. refl;
  decode_storable = λ s h. read-write t s.consumed s.response_code ∙ ap some (sym h);
  mark_consumed-IsStorable = λ s h. ap mark_consumed h;
}

abbrev pub toy_codec : Codec toy
toy_codec = codec_for (toy_session same_device)
