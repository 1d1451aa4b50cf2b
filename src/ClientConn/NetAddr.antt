-- ===== src/ClientConn/NetAddr.antt =====
-- rpc/client_conn.go: getNetAddr, which clients and servers share.
-- `atoi` is strconv.Atoi, `none` where it fails; `missing` says whether os.Stat finds that a file
-- does not exist, `remove` is the error of os.Remove.
use Prim.Native.Char.{code}
use gopl.Prelude.{
  ◌≡◌, Bool, true, false, Option, none, some, String, List, [], ◌∷◌, ◌==◌, arith, if◌then◌else◌,
}
use gopl.Prelude.Int.{ℤ, pos, leb_ℤ}
use gopl.RpcError.{GoError, Result, ok, err}

-- strings.Split(addr, ":")
unfoldable pub split_colon : String → List String
split_colon String.[] = "" ∷ []
split_colon (String.◌∷◌ c s) =
    let rest = split_colon s in
    if code c == b':'
    then "" ∷ rest
    else elim rest [ [] ↦ [] | head ∷ tail ↦ String.◌∷◌ c head ∷ tail ]

module _ (atoi : String → Option ℤ) (missing : String → Bool)
    (remove : String → Option GoError) where
  -- A socket's file: a server removes it, if it is there.
  unfoldable pub unix_addr : Bool → String → Result (String × String)
  unix_addr remove_file path =
      if remove_file
      then if missing path
        then ok ("unix", path)
        else elim (remove path) [ none ↦ ok ("unix", path) | some e ↦ err e ]
      else ok ("unix", path)

  unfoldable pub by_port : Option ℤ → Bool → String → String → Result (String × String)
  unfolding unix_addr
  by_port none remove_file addr path = ok ("tcp4", addr)
  by_port (some port) remove_file addr path =
      if leb_ℤ port (pos 0) then unix_addr remove_file path else ok ("tcp4", addr)

  unfoldable pub by_parts : List String → Bool → String → Result (String × String)
  unfolding by_port
  by_parts (path ∷ port ∷ rest) remove_file addr = by_port (atoi port) remove_file addr path
  by_parts parts remove_file addr = ok ("tcp4", addr)

  unfoldable pub get_net_addr : String → Bool → Result (String × String)
  unfolding by_parts split_colon
  get_net_addr addr remove_file = by_parts (split_colon addr) remove_file addr

  unix_addr_agree :
      (path : String) (r : String × String)
      → unix_addr true path ≡ ok r
      → unix_addr false path ≡ ok r
  unfolding unix_addr
  unix_addr_agree path r h = ground arith

  by_port_agree :
      (o : Option ℤ) (addr path : String) (r : String × String)
      → by_port o true addr path ≡ ok r
      → by_port o false addr path ≡ ok r
  unfolding by_port
  by_port_agree none addr path r h = h
  by_port_agree (some port) addr path r h = ground (arith, unix_addr_agree path r)

  by_parts_agree :
      (parts : List String) (addr : String) (r : String × String)
      → by_parts parts true addr ≡ ok r
      → by_parts parts false addr ≡ ok r
  unfolding by_parts
  by_parts_agree [] addr r h = h
  by_parts_agree (path ∷ []) addr r h = h
  by_parts_agree (path ∷ port ∷ rest) addr r h = by_port_agree (atoi port) addr path r h

  -- When getNetAddr tells a server, which removes an old socket, on what to listen, it tells a client
  -- with the same address to dial the same network and address.
  pub get_net_addr_agree :
      (addr : String) (r : String × String)
      → get_net_addr addr true ≡ ok r
      → get_net_addr addr false ≡ ok r
  unfolding get_net_addr
  get_net_addr_agree addr r h = by_parts_agree (split_colon addr) addr r h
