-- ===== src/Threaded/Service.antt =====
-- `execute` and `service` of concurrent_stockserver/thread_based/network.c: what a thread does with a
-- connection. The other threads act between its steps, so that what the commands do, and what writing
-- and closing do, are parameters over a state of the server. `parser` is the same text as that of the
-- other server. `none` is an exit of the server, a fault, or an end of the fuel.
pub mod Lines
use system_software.Prelude.{
  ℕ, zero, suc, ◌-◌, List, [], ◌∷◌, ◌++◌, Option, none, some, ltb, length, replicate, Bool, true,
  false, if◌then◌else◌,
}
use system_software.Server.Text.{Bytes}
use system_software.Server.Tree.{Status, success, no_cmd, inv_arg, nl}
use system_software.Server.StockFile.{maxline}
use system_software.Server.Parser.{Command, parser, codes}
use system_software.Server.Rio.{Rio, ReadEvent, rio_readlineb, minus_one, bytes}
use system_software.Server.Event.{heading, line_buffer}

-- `cmd.fp`: the status, the server, and the text in `result`; `rio_writen` of MAXLINE bytes, where a
-- failure ends the server; `socket_close`; the MAXLINE bytes that stand in memory from the start of a
-- literal on; and what the buffer holds after a read that failed.
module _ {W : Type 0} (fp : Command → W → Option (Status × W × Bytes))
    (rio_writen : Bytes → W → Option W) (socket_close : W → W) (literal : Bytes → Bytes)
    (stale : Bytes → Bytes) where
  unfoldable pub execute_command : Command → W → Option W
  execute_command cmd w = elim (fp cmd w) [
    | none ↦ none
    | some (st, w', result) ↦
        let res = heading cmd st ++ result in
        if ltb (length res) maxline
        then rio_writen (res ++ replicate (maxline - length res) 0) w'
        else none
  ]

  -- The `switch` and `free_args`, for what `parser` returned. `assigned` tells whether an earlier line
  -- gave `argc` a value. After NL `args` is not allocated anew, so that freeing it is a fault; after
  -- NOCMD it is, but the first `argc` is not.
  unfoldable pub answer : Bool → Status × Option Command → W → Option (Bool × W)
  answer assigned (st, found) w =
      let sent : Bytes → Bool → Option (Bool × W) =
        λ text now. elim (rio_writen (literal text) w) [ none ↦ none | some w' ↦ some (now, w') ] in
      elim st [
        | no_cmd ↦ if assigned then sent (codes "No Such Command\n") true else none
        | inv_arg ↦ sent (codes "Invalid Argument\n") true
        | nl ↦ none
        | _ ↦ elim found [
          | none ↦ none
          | some cmd ↦ elim (execute_command cmd w) [ none ↦ none | some w' ↦ some (true, w') ]
        ]
      ]

  unfoldable pub respond_line : Bytes → ℕ → Bool → W → Option (Bool × W)
  respond_line buf rc assigned w = elim (parser buf rc) [
    | none ↦ none
    | some parsed ↦ answer assigned parsed w
  ]

  -- The loop; `buf` is what `thread_safe_local_buf` holds.
  unfoldable pub service : ℕ → Bytes → Bool → Rio → List ReadEvent → W → Option W
  service zero buf assigned rp env w = none
  service (suc fuel) buf assigned rp env w =
      let (rc, rp', env') = rio_readlineb rp maxline env in
      elim rc [
        | bytes [] ↦ some (socket_close w)
        | bytes (c ∷ cs) ↦
            let buf' = line_buffer (c ∷ cs) buf in
            elim (respond_line buf' (length (c ∷ cs)) assigned w) [
              | none ↦ none
              | some (assigned', w') ↦ service fuel buf' assigned' rp' env' w'
            ]
        | minus_one ↦ elim (respond_line (stale buf) 0 assigned w) [
          | none ↦ none
          | some (assigned', w') ↦ service fuel (stale buf) assigned' rp' env' w'
        ]
      ]
