-- ===== src/Io.antt =====
-- What the components hand to one another: the error codes of the devices, loaders and savers
-- (include/HTTPCommon.hpp, include/HTTPLoader.hpp, include/WSCommon.hpp, include/WSLoader.hpp,
-- include/IPFSCommon.hpp, include/IPFSLoader.hpp, include/MNNLoader.hpp), the result that a
-- completion carries (`ResultType`, `CompletionCallback` of include/FileManager.hpp), and the
-- outcome of a C++ call, which may return, throw, or have no defined behaviour.
use async_iomanager.Common.{
  ℕ, ◌+◌, length, length-append, ◌∙◌, Bool, true, false, Option, List, [], ◌∷◌, ◌++◌, Bytes, ◌≡◌,
  refl, ap,
}

-- `HTTPDevice::Error`.
pub data HttpError : Type 0 where
  could_not_resolve handshake_error connect_error con_interrupt no_header req_failed timeout :
      HttpError

-- `WSDevice::Error`.
pub data WsError : Type 0 where
  could_not_resolve handshake_error connect_error no_eof ws_handshake_error : WsError

-- `IPFSDevice::Error`.
pub data IpfsDeviceError : Type 0 where
  cannot_decode no_source : IpfsDeviceError

-- `IPFSLoader::Error`.
pub data IpfsLoaderError : Type 0 where
  cannot_listen bad_cid invalid_url : IpfsLoaderError

-- `MNNLoader::Error`.
pub data MnnLoaderError : Type 0 where
  read_error file_open_fail : MnnLoaderError

-- An error code: a value in the category of its enumeration. `HTTPLoader::Error` and
-- `WSLoader::Error` have the one value `INVALID_URL`.
pub data ErrorCode : Type 0 where
  http_device : HttpError → ErrorCode
  ws_device : WsError → ErrorCode
  ipfs_device : IpfsDeviceError → ErrorCode
  ipfs_loader : IpfsLoaderError → ErrorCode
  mnn_loader : MnnLoaderError → ErrorCode
  http_invalid_url ws_invalid_url : ErrorCode

-- The pair of file names and file contents.
pub record Files : Type 0 where
  pub paths : List Bytes
  pub contents : List Bytes

-- `outcome::result` of a shared pointer to such a pair, which may be null.
pub data ResultType : Type 0 where
  failure : ErrorCode → ResultType
  success : Option Files → ResultType

-- The conversion of a result to `bool`: a null pointer is a value too.
abbrev pub has_value : ResultType → Bool
has_value (failure e) = false
has_value (success p) = true

-- One call of a completion callback.
pub record Completion : Type 0 where
  pub buffers : ResultType
  pub parse : Bool
  pub save : Bool

-- The failures that the devices report come with both flags off.
abbrev pub failed : ErrorCode → Completion
failed e = record { buffers = failure e; parse = false; save = false }

-- An exception, with its text.
pub data Exception : Type 0 where
  range_error : Bytes → Exception
  runtime_error : Bytes → Exception
  -- of `std::filesystem`, with the path
  filesystem_error : Bytes → Exception
  -- of Boost, which the resolver and the connection throw
  system_error : Exception
  -- of `value()` on a result that has none
  bad_access : Exception

pub data Call {ℓ} (A : Type ℓ) : Type ℓ where
  returned : A → Call A
  thrown : Exception → Call A
  undefined : Call A

-- What a device does while it handles an event, in order: it starts or makes a call of its own kind
-- `Op`, or it makes a callback with a value of `C`, at once or by `boost::asio::post`.
pub data Action (Op C : Type 0) : Type 0 where
  op : Op → Action Op C
  call : C → Action Op C
  post : C → Action Op C

module _ {Op C : Type 0} where
  -- The callbacks that a sequence of actions makes.
  abbrev pub callbacks : List (Action Op C) → List C
  callbacks [] = []
  callbacks (op o ∷ acts) = callbacks acts
  callbacks (call c ∷ acts) = c ∷ callbacks acts
  callbacks (post c ∷ acts) = c ∷ callbacks acts

  pub callbacks-append :
      (acts bs : List (Action Op C)) → callbacks (acts ++ bs) ≡ callbacks acts ++ callbacks bs
  callbacks-append [] bs = refl
  callbacks-append (op o ∷ acts) bs = callbacks-append acts bs
  callbacks-append (call c ∷ acts) bs = ap (◌∷◌ c) (callbacks-append acts bs)
  callbacks-append (post c ∷ acts) bs = ap (◌∷◌ c) (callbacks-append acts bs)

  -- How many they are.
  abbrev pub made : List (Action Op C) → ℕ
  made acts = length (callbacks acts)

  pub made-append : (acts bs : List (Action Op C)) → made (acts ++ bs) ≡ made acts + made bs
  made-append acts bs =
      ap length (callbacks-append acts bs) ∙ length-append (callbacks acts) (callbacks bs)
