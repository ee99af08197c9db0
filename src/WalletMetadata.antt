-- ===== src/WalletMetadata.antt =====
-- walletmetadata.go: the wallet's metadata document, kept on the session as it came.
pub mod Kept
use go_oid4vp.Base.{
  ℕ, ◌≤◌, ◌<◌, ◌≡◌, ◌↔◌, refl, Bool, true, false, ◌||◌, Option, none, some, List, [], arith, length,
  ltb,
}
use go_oid4vp.Base.Bytes.{Bytes, is_empty}
use go_oid4vp.Platform.{Platform, Document}
use go_oid4vp.Session.{Session}
use go_oid4vp.Fault.{
  Result, ok, err, sentinel, wrap, refuse_if, or_fail, ◌>>=◌, ◌>>◌, session_invalid,
  wallet_metadata_invalid,
}

abbrev pub max_wallet_metadata_bytes : ℕ
max_wallet_metadata_bytes = 65_536

module _ {V : Platform} where
  -- The session after a successful `AbsorbWalletMetadata`; an error leaves it as it was. The copy of
  -- the slice is the value itself.
  unfoldable pub absorb_wallet_metadata : Option (Session V) → Bytes → Result (Session V)
  absorb_wallet_metadata p raw = do
    s ← or_fail p (sentinel session_invalid)
    refuse_if (is_empty raw || ltb max_wallet_metadata_bytes (length raw))
        (wrap (sentinel wallet_metadata_invalid) [])
    doc ← or_fail (V.decode_document raw) (wrap (sentinel wallet_metadata_invalid) [])
    refuse_if doc.more (wrap (sentinel wallet_metadata_invalid) [])
    refuse_if doc.is_nil (wrap (sentinel wallet_metadata_invalid) [])
    ok (record s { wallet_metadata = raw })
