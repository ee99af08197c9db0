-- ===== src/Store/Implements.antt =====
-- The in-memory store behind the interface.
use go_oid4vp.Base.{◌≡◌, refl, true, some, none}
use go_oid4vp.Platform.{Platform}
use go_oid4vp.Base.Bytes.{is_empty}
use go_oid4vp.Session.{Session}
use go_oid4vp.Store.{Codec, MemStore, save}
use go_oid4vp.Store.Spec.{Sessions, sticky_kept, spec_save}
use go_oid4vp.Store.Plain.{plain_save}
use go_oid4vp.Store.Refines.{
  Represents, new_mem_store-Represents, save-Agrees, load-Loads, consume-Agrees,
}
use go_oid4vp.Store.Interface.{Implements, mem_store}

module _ {V : Platform} (c : Codec V) where
  saves_nameless :
      (s : Session V) (m : MemStore) (f : Sessions V)
      → is_empty s.id ≡ true
      → Represents c m f
      → ((save c (some s) m).0 ≡ (spec_save (some s) f).0) × Represents c (save c (some s) m).1 f
  unfolding save spec_save
  saves_nameless s m f h r = rw h (refl, r)

  -- The in-memory store implements the interface for the sessions that its encoding keeps.
  pub mem_store-Implements : Implements c.IsStorable (mem_store c)
  unfolding spec_save plain_save
  mem_store-Implements = record {
    Stands = Represents c;
    starts = new_mem_store-Represents c;
    saves_as = λ s m f h k r. rw (sticky_kept (f s.id) s k) (save-Agrees c (some s) m f h r);
    saves_nil = λ m f r. save-Agrees c none m f tt r;
    saves_nameless = saves_nameless;
    loads_as = λ now id m f r. let l = load-Loads c now id m f r in (l.0, l.1);
    consumes_as = consume-Agrees c;
    isolates = λ id s m f r. r;
  }
