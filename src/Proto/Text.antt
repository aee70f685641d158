-- ===== src/Proto/Text.antt =====
-- lab2/src/common/strings.c: the texts for message types and errors.
use Prim.Native.String.{String}
use stanford_cs240_sp21_labs.Proto.Types.{MsgType, SnfsError}

unfoldable pub strmsgtype : MsgType → String
strmsgtype MsgType.noop = "NOOP"
strmsgtype MsgType.mount = "MOUNT"
strmsgtype MsgType.getattr = "GETATTR"
strmsgtype MsgType.read = "READ"
strmsgtype MsgType.readdir = "READDIR"
strmsgtype MsgType.write = "WRITE"
strmsgtype MsgType.lookup = "LOOKUP"
strmsgtype MsgType.setattr = "SETATTR"
strmsgtype MsgType.error = "ERROR"
strmsgtype _ = "UNKNOWN"

unfoldable pub strsnfserror : SnfsError → String
strsnfserror SnfsError.enotimpl = "The requested operation has not been implemented."
strsnfserror SnfsError.ebadop = "The requested operation is invalid."
strsnfserror SnfsError.enoent = "The entry specified does not exist or is invalid."
strsnfserror SnfsError.eacces = "Permission was denied for the specified entry."
strsnfserror SnfsError.enotdir = "A directory entry was expected but was not found."
strsnfserror SnfsError.einternal = "There was an internal server error."
strsnfserror (SnfsError.unlisted n) = "UNKNOWN"
