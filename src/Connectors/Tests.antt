-- ===== src/Connectors/Tests.antt =====
-- One connector that fails twice, and a queue of two.
mod Syncs
use open_civic.Common.{refl, none, [], arith}
use open_civic.Common.Table.{Table, Found, find, update}
use open_civic.Connectors.{Connector, closed, create, mark_sync_failure, get_by_id, counted_failure}
use open_civic.Connectors.Breaker.{
  IsConsistent, Writes, start, after, create_write, failure_write, Writes-Consistent,
}

no_rows : Table Connector
no_rows = []

one : Table Connector
one = create 10 1 "a" "ckan" [] 7 none none no_rows

failed_once : Table Connector
unfolding one no_rows
failed_once = update 1 (counted_failure 2 1 closed) one

failed_twice : Table Connector
unfolding failed_once
failed_twice = update 1 (counted_failure 2 2 closed) failed_once

none_yet : Found (IsConsistent 2) no_rows
unfolding no_rows find
none_yet k c e = cc

two_failures : Writes 2 no_rows failed_twice
unfolding failed_twice failed_once one no_rows create mark_sync_failure get_by_id find update
    counted_failure
two_failures =
    after
      (after (after start (create_write no_rows 10 1 "a" "ckan" [] 7 none none))
        (failure_write one failed_once 1 refl))
      (failure_write failed_once failed_twice 1 refl)
