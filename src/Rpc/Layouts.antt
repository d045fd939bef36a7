-- ===== src/Rpc/Layouts.antt =====
-- The columns of the lines of /proc/net/rpc.
use fullerite.Base.{Bool, true, false, List, [], ◌∷◌, map}
use fullerite.Base.Text.{Str, codes}

-- A kind of line: whether a count of columns stands in front, the names of its columns, and the
-- names of the columns behind them that may be missing.
pub record Layout : Type 0 where
  pub kind : Str
  pub counted : Bool
  pub names : List Str
  pub optional : List Str

abbrev layout : Str → Bool → List Str → List Str → Layout
layout kind counted names optional = record {
  kind = kind;
  counted = counted;
  names = names;
  optional = optional;
}

abbrev pub nfs_layouts : List Layout
nfs_layouts =
    layout (codes "net") false
      (map codes ("net.packets" ∷ "net.udpcnt" ∷ "net.tcpcnt" ∷ "net.tcpconn" ∷ [])) ([])
    ∷ layout (codes "rpc") false (map codes ("rpc.calls" ∷ "rpc.retrans" ∷ "rpc.authrefrsh" ∷ []))
        ([])
    ∷ layout (codes "proc2") true
        (map codes (
          "v2.null" ∷ "v2.getattr" ∷ "v2.setattr" ∷ "v2.root" ∷ "v2.lookup" ∷ "v2.readlink"
          ∷ "v2.read" ∷ "v2.wrcache" ∷ "v2.write" ∷ "v2.create" ∷ "v2.remove" ∷ "v2.rename"
          ∷ "v2.link" ∷ "v2.symlink" ∷ "v2.mkdir" ∷ "v2.rmdir" ∷ "v2.readdir" ∷ "v2.fsstat" ∷ []))
        ([])
    ∷ layout (codes "proc3") true
        (map codes (
          "v3.null" ∷ "v3.getattr" ∷ "v3.setattr" ∷ "v3.lookup" ∷ "v3.access" ∷ "v3.readlink"
          ∷ "v3.read" ∷ "v3.write" ∷ "v3.create" ∷ "v3.mkdir" ∷ "v3.symlink" ∷ "v3.mknod"
          ∷ "v3.remove" ∷ "v3.rmdir" ∷ "v3.rename" ∷ "v3.link" ∷ "v3.readdir" ∷ "v3.readdirplus"
          ∷ "v3.fsstat" ∷ "v3.fsinfo" ∷ "v3.pathconf" ∷ "v3.commit" ∷ []))
        ([])
    ∷ layout (codes "proc4") true
        (map codes (
          "v4.null" ∷ "v4.read" ∷ "v4.write" ∷ "v4.commit" ∷ "v4.open" ∷ "v4.open_conf"
          ∷ "v4.open_noat" ∷ "v4.open_dgrd" ∷ "v4.close" ∷ "v4.setattr" ∷ "v4.fsinfo" ∷ "v4.renew"
          ∷ "v4.setclntid" ∷ "v4.confirm" ∷ "v4.lock" ∷ "v4.lockt" ∷ "v4.locku" ∷ "v4.access"
          ∷ "v4.getattr" ∷ "v4.lookup" ∷ "v4.lookup_root" ∷ "v4.remove" ∷ "v4.rename" ∷ "v4.link"
          ∷ "v4.symlink" ∷ "v4.create" ∷ "v4.pathconf" ∷ "v4.statfs" ∷ "v4.readlink" ∷ "v4.readdir"
          ∷ []))
        (map codes (
          "v4.server_caps" ∷ "v4.delegreturn" ∷ "v4.getacl" ∷ "v4.setacl" ∷ "v4.fs_locations"
          ∷ "v4.rel_lkowner" ∷ "v4.exchange_id" ∷ "v4.create_ses" ∷ "v4.destroy_ses" ∷ "v4.sequence"
          ∷ "v4.get_lease_t" ∷ "v4.reclaim_comp" ∷ "v4.layoutget" ∷ "v4.layoutcommit"
          ∷ "v4.layoutreturn" ∷ "v4.getdevlist" ∷ "v4.getdevinfo" ∷ "v4.ds_write" ∷ "v4.ds_commit"
          ∷ "v4.getdevlist" ∷ []))
    ∷ []

abbrev pub nfsd_layouts : List Layout
nfsd_layouts =
    layout (codes "rc") false
      (map codes ("reply_cache.hits" ∷ "reply_cache.misses" ∷ "reply_cache.nocache" ∷ [])) ([])
    ∷ layout (codes "fh") false
        (map codes (
          "filehandle.stale" ∷ "filehandle.total-lookups" ∷ "filehandle.anonlookups"
          ∷ "filehandle.dir-not-in-cache" ∷ "filehandle.nodir-not-in-cache" ∷ []))
        ([])
    ∷ layout (codes "io") false
        (map codes ("input_output.bytes-read" ∷ "input_output.bytes-written" ∷ [])) ([])
    ∷ layout (codes "th") false
        (map codes (
          "threads.threads" ∷ "threads.fullcnt" ∷ "threads.10-20-pct" ∷ "threads.20-30-pct"
          ∷ "threads.30-40-pct" ∷ "threads.40-50-pct" ∷ "threads.50-60-pct" ∷ "threads.60-70-pct"
          ∷ "threads.70-80-pct" ∷ "threads.80-90-pct" ∷ "threads.90-100-pct" ∷ "threads.100-pct"
          ∷ []))
        ([])
    ∷ layout (codes "ra") false
        (map codes (
          "read-ahead.cache-size" ∷ "read-ahead.10-pct" ∷ "read-ahead.20-pct" ∷ "read-ahead.30-pct"
          ∷ "read-ahead.40-pct" ∷ "read-ahead.50-pct" ∷ "read-ahead.60-pct" ∷ "read-ahead.70-pct"
          ∷ "read-ahead.80-pct" ∷ "read-ahead.90-pct" ∷ "read-ahead.100-pct"
          ∷ "read-ahead.not-found" ∷ []))
        ([])
    ∷ layout (codes "net") false
        (map codes ("net.cnt" ∷ "net.udpcnt" ∷ "net.tcpcnt" ∷ "net.tcpconn" ∷ [])) ([])
    ∷ layout (codes "rpc") false
        (map codes ("rpc.cnt" ∷ "rpc.badfmt" ∷ "rpc.badauth" ∷ "rpc.badclnt" ∷ [])) ([])
    ∷ layout (codes "proc2") false
        (map codes (
          "v2.unknown" ∷ "v2.null" ∷ "v2.getattr" ∷ "v2.setattr" ∷ "v2.root" ∷ "v2.lookup"
          ∷ "v2.readlink" ∷ "v2.read" ∷ "v2.wrcache" ∷ "v2.write" ∷ "v2.create" ∷ "v2.remove"
          ∷ "v2.rename" ∷ "v2.link" ∷ "v2.symlink" ∷ "v2.mkdir" ∷ "v2.rmdir" ∷ "v2.readdir"
          ∷ "v2.fsstat" ∷ []))
        ([])
    ∷ layout (codes "proc3") false
        (map codes (
          "v3.unknown" ∷ "v3.null" ∷ "v3.getattr" ∷ "v3.setattr" ∷ "v3.lookup" ∷ "v3.access"
          ∷ "v3.readlink" ∷ "v3.read" ∷ "v3.write" ∷ "v3.create" ∷ "v3.mkdir" ∷ "v3.symlink"
          ∷ "v3.mknod" ∷ "v3.remove" ∷ "v3.rmdir" ∷ "v3.rename" ∷ "v3.link" ∷ "v3.readdir"
          ∷ "v3.readdirplus" ∷ "v3.fsstat" ∷ "v3.fsinfo" ∷ "v3.pathconf" ∷ "v3.commit" ∷ []))
        ([])
    ∷ layout (codes "proc4") false (map codes ("v4.unknown" ∷ "v4.null" ∷ "v4.compound" ∷ [])) ([])
    ∷ layout (codes "proc4ops") false
        (map codes (
          "v4.ops.unknown" ∷ "v4.ops.op0-unused" ∷ "v4.ops.op1-unused" ∷ "v4.ops.op2-future"
          ∷ "v4.ops.access" ∷ "v4.ops.close" ∷ "v4.ops.commit" ∷ "v4.ops.create"
          ∷ "v4.ops.delegpurge" ∷ "v4.ops.delegreturn" ∷ "v4.ops.getattr" ∷ "v4.ops.getfh"
          ∷ "v4.ops.link" ∷ "v4.ops.lock" ∷ "v4.ops.lockt" ∷ "v4.ops.locku" ∷ "v4.ops.lookup"
          ∷ "v4.ops.lookup_root" ∷ "v4.ops.nverify" ∷ "v4.ops.open" ∷ "v4.ops.openattr"
          ∷ "v4.ops.open_conf" ∷ "v4.ops.open_dgrd" ∷ "v4.ops.putfh" ∷ "v4.ops.putpubfh"
          ∷ "v4.ops.putrootfh" ∷ "v4.ops.read" ∷ "v4.ops.readdir" ∷ "v4.ops.readlink"
          ∷ "v4.ops.remove" ∷ "v4.ops.rename" ∷ "v4.ops.renew" ∷ "v4.ops.restorefh"
          ∷ "v4.ops.savefh" ∷ "v4.ops.secinfo" ∷ "v4.ops.setattr" ∷ "v4.ops.setcltid"
          ∷ "v4.ops.setcltidconf" ∷ "v4.ops.verify" ∷ "v4.ops.write" ∷ "v4.ops.rellockowner" ∷ []))
        ([])
    ∷ []
