-- ===== src/Flags/Reading.antt =====
-- The flags that a command reads are flags that it has, of the same type.
use sara.Common.{◌≡◌, refl, codes, pos, bytes_eq, split, []}
use sara.Flags.{
  Given, or_else, init_flags_for_test_of_make_conn, find_flag, named, int, string,
  makeconn_for_test,
}

-- Whatever the command line gives, each argument of the benchmark is what it gives for that
-- argument, or else the default of its flag: no name is misspelt, and none is read with another
-- type than its flag has.
pub makeconn_for_test-given :
    (given : Given)
    → makeconn_for_test given init_flags_for_test_of_make_conn ≡ record {
      laddr = or_else (given.string_of (codes "laddr,l")) [];
      addr = or_else (given.string_of (codes "raddr,a")) (codes "localhost:4222");
      total = or_else (given.int_of (codes "total,t")) (pos 1024);
      heartbeat = or_else (given.int_of (codes "heartbeat,b")) (pos 50);
      message_gap = or_else (given.int_of (codes "messagegap,mg")) (pos 5);
      message_size = or_else (given.int_of (codes "messagesize,ms")) (pos 0);
    }
unfolding makeconn_for_test init_flags_for_test_of_make_conn int string find_flag named split
    bytes_eq
makeconn_for_test-given given = refl
